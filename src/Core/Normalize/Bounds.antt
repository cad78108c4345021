-- ===== src/Core/Normalize/Bounds.antt =====
-- The size limits that packages/core/src/normalize.ts enforces.
use spectro.Prelude.{
  ok_injective, ℕ, zero, suc, ◌+◌, ◌≤◌, ◌≡◌, ◌⊎◌, ◌≢◌, inl, inr, refl, subst, true, false, List, [],
  ◌∷◌, arith, length, length-take-le, take, has, Bool-cases, Text, text, text_eq, text_eq_iff,
}
use spectro.Protocol.Json.{Json, Items, Fields}
use spectro.Core.Normalize.{
  Value, Object, Heap, Result, ok, err, date, arr, obj, cyclic, >>=-eq-ok, max_array_items,
  max_object_keys, max_string_length, max_json_depth, each, put, assign, assign_entries, as_fields,
  is_sensitive_property_key, normalize, normalize_properties,
}

abbrev pub AllItems {κ} : (Json → Type κ) → Items → Type κ
AllItems P Items.nil = Unit
AllItems P (Items.cons j js) = P j × AllItems P js

abbrev pub AllFields {κ} : (Text → Json → Type κ) → Fields → Type κ
AllFields P Fields.end = Unit
AllFields P (Fields.field k j fs) = P k j × AllFields P fs

abbrev pub count_items : Items → ℕ
count_items Items.nil = 0
count_items (Items.cons j js) = suc (count_items js)

abbrev pub count_fields : Fields → ℕ
count_fields Fields.end = 0
count_fields (Fields.field k j fs) = suc (count_fields fs)

-- The value nests at most `levels` deep, counted with itself; arrays and objects have at most 100
-- members, strings at most 2048 code units, and keys at most 128.
abbrev pub IsBounded : ℕ → Json → Type 0
IsBounded zero j = ⊥
IsBounded (suc levels) Json.null = Unit
IsBounded (suc levels) (Json.bool b) = Unit
IsBounded (suc levels) (Json.num n) = Unit
IsBounded (suc levels) (Json.str s) = length s ≤ max_string_length
IsBounded (suc levels) (Json.arr xs) =
    (count_items xs ≤ max_array_items) × AllItems (IsBounded levels) xs
IsBounded (suc levels) (Json.obj fs) =
    (count_fields fs ≤ max_object_keys)
    × AllFields (λ k j. (length k ≤ 128) × IsBounded levels j) fs

module _ {κ} (P : Json → Type κ) (f : Value → Result Json)
    (good : (v : Value) (j : Json) → f v ≡ ok j → P j) where
  each-All :
      (vs : List Value) {js : Items}
      → each f vs ≡ ok js
      → AllItems P js × (count_items js ≡ length vs)
  each-All [] {js} h =
      subst (λ js. AllItems P js × (count_items js ≡ 0)) (ok_injective Items.nil js h) (tt, refl)
  each-All (v ∷ vs) {js} h =
      let (j, e, rest) = >>=-eq-ok (f v) _ h in
      let (js', e', last) = >>=-eq-ok (each f vs) _ rest in
      let (all, n) = each-All vs e' in
      subst (λ js. AllItems P js × (count_items js ≡ suc (length vs)))
        (ok_injective (Items.cons j js') js last) ((good v j e, all), omega (arith, n))

module _ (P : Text → Json → Type 0) where
  put-All :
      (k : Text) (j : Json) (fs : Fields)
      → P k j
      → AllFields P fs
      → AllFields P (put k j fs) × (count_fields (put k j fs) ≤ suc (count_fields fs))
  put-All k j Fields.end p a = ((p, tt), omega arith)
  put-All k j (Fields.field i w fs) p (q, a) = elim (Bool-cases (text_eq i k)) [
    | inl same ↦ rw same ((rw ((text_eq_iff i k).0 same) p, a), omega arith)
    | inr other ↦ let (all, n) = put-All k j fs p a in rw other ((q, all), omega (arith, n))
  ]

  assign-All :
      (k : Text) (j : Json) (fs : Fields)
      → P k j
      → AllFields P fs
      → AllFields P (assign k j fs) × (count_fields (assign k j fs) ≤ suc (count_fields fs))
  unfolding assign
  assign-All k j fs p a = elim (Bool-cases (text_eq k (text "__proto__"))) [
    | inl proto ↦ rw proto (a, omega arith)
    | inr own ↦ rw own (put-All k j fs p a)
  ]

  assign_entries-All :
      (lower : Text → Text) (f : Value → Result Json)
      → ((k : Text) (v : Value) (j : Json)
          → f v ≡ ok j
          → is_sensitive_property_key lower k ≡ false
          → P (take 128 k) j)
      → (entries : List (Text × Value)) (output : Fields) {fs : Fields} → AllFields P output
      → assign_entries lower f entries output ≡ ok fs
      → AllFields P fs × (count_fields fs ≤ count_fields output + length entries)
  unfolding assign_entries
  assign_entries-All lower f good [] output {fs} a h =
      subst (λ fs. AllFields P fs × (count_fields fs ≤ count_fields output + 0))
        (ok_injective output fs h) (a, omega arith)
  assign_entries-All lower f good ((k, v) ∷ entries) output {fs} a h =
      elim (Bool-cases (is_sensitive_property_key lower k)) [
        | inl secret ↦
            let (all, n) =
              assign_entries-All lower f good entries output a (rw (secret, assign_entries) at h) in
            (all, omega (arith, n))
        | inr plain ↦
            let (j, e, rest) = >>=-eq-ok (f v) _ (rw (plain, assign_entries) at h) in
            let (stored, m) = assign-All (take 128 k) j output (good k v j e plain) a in
            let (all, n) = assign_entries-All lower f good entries _ stored rest in
            (all, omega (arith, n, m))
      ]

as_fields-ok : (j : Json) (fs : Fields) → as_fields j ≡ ok fs → j ≡ Json.obj fs
as_fields-ok (Json.obj gs) fs h = cc
as_fields-ok _ fs h = cc

Object-cases :
    (o : Object)
    → (o ≡ date)
      ⊎ ((items : List Value) × (o ≡ arr items))
      ⊎ ((entries : List (Text × Value)) × (o ≡ obj entries))
Object-cases date = inl refl
Object-cases (arr items) = inr (inl (items, refl))
Object-cases (obj entries) = inr (inr (entries, refl))

module _ (lower : Text → Text) (heap : Heap) where
  normalize-IsBounded :
      (left : ℕ) (v : Value) (seen : List ℕ) (j : Json)
      → normalize lower heap left v seen ≡ ok j
      → IsBounded left j
  unfolding normalize
  normalize-IsBounded zero v seen j h = cc
  normalize-IsBounded (suc left) Value.null seen j h =
      subst (IsBounded (suc left)) (ok_injective Json.null j h) tt
  normalize-IsBounded (suc left) (Value.bool b) seen j h =
      subst (IsBounded (suc left)) (ok_injective _ j h) tt
  normalize-IsBounded (suc left) (Value.num b) seen j h =
      subst (IsBounded (suc left)) (ok_injective _ j h) tt
  normalize-IsBounded (suc left) (Value.str s) seen j h =
      subst (IsBounded (suc left)) (ok_injective _ j h) (length-take-le max_string_length s)
  normalize-IsBounded (suc left) Value.not_finite seen j h = cc
  normalize-IsBounded (suc left) Value.unsupported seen j h = cc
  normalize-IsBounded (suc left) (Value.ref a) seen j h = elim (Object-cases (heap a)) [
    | inl moment ↦ cc (rw (moment, normalize) at h)
    | inr (inl (items, at)) ↦ elim (Bool-cases (has a seen)) [
      | inl again ↦ cc (rw (at, again, normalize) at h)
      | inr new ↦
          let (js, e, last) = >>=-eq-ok _ _ (rw (at, new, normalize) at h) in
          let (all, n) =
            each-All (IsBounded left) (λ v. normalize lower heap left v (a ∷ seen))
              (λ v j. normalize-IsBounded left v (a ∷ seen) j) (take max_array_items items) e in
          subst (IsBounded (suc left)) (ok_injective (Json.arr js) j last)
            (omega (arith, n, length-take-le max_array_items items), all)
    ]
    | inr (inr (entries, at)) ↦ elim (Bool-cases (has a seen)) [
      | inl again ↦ cc (rw (at, again, normalize) at h)
      | inr new ↦
          let (fs, e, last) = >>=-eq-ok _ _ (rw (at, new, normalize) at h) in
          let (all, n) =
            assign_entries-All (λ k j. (length k ≤ 128) × IsBounded left j) lower
              (λ v. normalize lower heap left v (a ∷ seen))
              (λ k v j e _. (length-take-le 128 k, normalize-IsBounded left v (a ∷ seen) j e))
              (take max_object_keys entries) Fields.end tt e in
          subst (IsBounded (suc left)) (ok_injective (Json.obj fs) j last)
            (omega (arith, n, length-take-le max_object_keys entries), all)
    ]
  ]

  -- Properties that `normalizeProperties` returns nest at most five deep below the object itself;
  -- arrays and objects have at most 100 members, strings at most 2048 code units, keys at most 128.
  pub normalize_properties-IsBounded :
      (v : Value) (fs : Fields)
      → normalize_properties lower heap v ≡ ok fs
      → IsBounded (suc max_json_depth) (Json.obj fs)
  unfolding normalize_properties
  normalize_properties-IsBounded v fs h =
      let (j, e, last) = >>=-eq-ok (normalize lower heap (suc max_json_depth) v []) _ h in
      subst (IsBounded (suc max_json_depth)) (as_fields-ok j fs last)
        (normalize-IsBounded (suc max_json_depth) v [] j e)

  -- An object that contains itself is refused, if it is reached before the depth runs out.
  pub normalize_cyclic :
      (left a : ℕ) (seen : List ℕ)
      → has a seen ≡ true
      → heap a ≢ date
      → normalize lower heap (suc left) (Value.ref a) seen ≡ err cyclic
  unfolding normalize
  normalize_cyclic left a seen again alive = elim (Object-cases (heap a)) [
    | inl moment ↦ absurd (alive moment)
    | inr (inl (items, at)) ↦ rw (at, again, normalize) refl
    | inr (inr (entries, at)) ↦ rw (at, again, normalize) refl
  ]
