-- ===== src/Protocol/Depth.antt =====
-- `isJsonDepthWithin` of packages/protocol/src/validation.ts, on JSON values. A JSON value is a tree,
-- so that no object is met twice, and the set of the objects seen has no part in it.
use spectro.Prelude.{
  ◌≡◌, refl, ap, ◌∙◌, sym, ℕ, zero, suc, ◌+◌, ◌-◌, ◌≤◌, ◌<◌, Bool, true, false, not, ◌&&◌, Option,
  none, some, List, [], ◌∷◌, arith, leb, inl, inr, Bool-cases, Option-cases,
}
use spectro.Protocol.Json.{Json, Items, Fields}

abbrev pub max_envelope_structure_depth : ℕ
max_envelope_structure_depth = 16

abbrev item_values : Items → List Json
item_values Items.nil = []
item_values (Items.cons v vs) = v ∷ item_values vs

abbrev field_values : Fields → List Json
field_values Fields.end = []
field_values (Fields.field k v fs) = v ∷ field_values fs

-- `Object.values` of an array or an object.
abbrev children : Json → Option (List Json)
children (Json.arr vs) = some (item_values vs)
children (Json.obj fs) = some (field_values fs)
children _ = none

mutual
  pub size : Json → ℕ
  size (Json.arr vs) = suc (items_size vs)
  size (Json.obj fs) = suc (fields_size fs)
  size _ = 1

  items_size : Items → ℕ
  items_size Items.nil = 0
  items_size (Items.cons v vs) = size v + items_size vs

  fields_size : Fields → ℕ
  fields_size Fields.end = 0
  fields_size (Fields.field k v fs) = size v + fields_size fs

abbrev is_empty {ℓ} : {A : Type ℓ} → List A → Bool
is_empty [] = true
is_empty (x ∷ xs) = false

-- The children, the last on top of the stack.
abbrev push : ℕ → List Json → List (ℕ × Json) → List (ℕ × Json)
push depth [] pending = pending
push depth (v ∷ vs) pending = push depth vs ((depth, v) ∷ pending)

-- The loop; the fuel is spent on the values taken from the stack.
unfoldable pub within : (fuel : ℕ) → (max_depth : ℕ) → List (ℕ × Json) → Bool
within fuel max_depth [] = true
within zero max_depth ((depth, v) ∷ pending) = false
within (suc fuel) max_depth ((depth, v) ∷ pending) = elim (children v) [
  | none ↦ within fuel max_depth pending
  | some vs ↦ elim (leb max_depth depth && not (is_empty vs)) [
    | true ↦ false
    | false ↦ within fuel max_depth (push (suc depth) vs pending)
  ]
]

unfoldable pub is_json_depth_within : Json → (max_depth depth : ℕ) → Bool
is_json_depth_within v max_depth depth = within (size v) max_depth ((depth, v) ∷ [])

-- At most `levels` arrays and objects enclose any value in `v`.
abbrev all : (Json → Bool) → List Json → Bool
all p [] = true
all p (v ∷ vs) = p v && all p vs

unfoldable pub fits : (levels : ℕ) → Json → Bool
fits zero v = elim (children v) [ none ↦ true | some vs ↦ is_empty vs ]
fits (suc levels) v = elim (children v) [ none ↦ true | some vs ↦ all (fits levels) vs ]

abbrev all_fit : ℕ → List (ℕ × Json) → Bool
all_fit max_depth [] = true
all_fit max_depth ((depth, v) ∷ pending) = fits (max_depth - depth) v && all_fit max_depth pending

abbrev list_size : List Json → ℕ
list_size [] = 0
list_size (v ∷ vs) = size v + list_size vs

abbrev stack_size : List (ℕ × Json) → ℕ
stack_size [] = 0
stack_size ((d, v) ∷ s) = size v + stack_size s

all_fit-push :
    (m d : ℕ) (vs : List Json) (s : List (ℕ × Json))
    → all_fit m (push d vs s) ≡ (all (fits (m - d)) vs && all_fit m s)
all_fit-push m d [] s = refl
all_fit-push m d (v ∷ vs) s = ground (arith, all_fit-push m d vs ((d, v) ∷ s))

stack_size-push :
    (d : ℕ) (vs : List Json) (s : List (ℕ × Json))
    → stack_size (push d vs s) ≡ list_size vs + stack_size s
stack_size-push d [] s = omega arith
stack_size-push d (v ∷ vs) s = omega (arith, stack_size-push d vs ((d, v) ∷ s))

item_values-size : (vs : Items) → list_size (item_values vs) ≡ items_size vs
unfolding size items_size fields_size
item_values-size Items.nil = refl
item_values-size (Items.cons v vs) = omega (arith, item_values-size vs)

field_values-size : (fs : Fields) → list_size (field_values fs) ≡ fields_size fs
unfolding size items_size fields_size
field_values-size Fields.end = refl
field_values-size (Fields.field k v fs) = omega (arith, field_values-size fs)

children-size : (v : Json) (vs : List Json) → children v ≡ some vs → list_size vs < size v
unfolding size items_size fields_size
children-size (Json.arr xs) vs h = ground (arith, item_values-size xs)
children-size (Json.obj fs) vs h = ground (arith, field_values-size fs)
children-size _ vs h = cc

fits-children :
    (levels : ℕ) (v : Json) (vs : List Json)
    → children v ≡ some vs
    → fits (suc levels) v ≡ all (fits levels) vs
unfolding fits
fits-children levels v vs h = rw (h, fits) refl

fits-zero : (v : Json) (vs : List Json) → children v ≡ some vs → fits zero v ≡ is_empty vs
unfolding fits
fits-zero v vs h = rw (h, fits) refl

fits-leaf : (levels : ℕ) (v : Json) → children v ≡ none → fits levels v ≡ true
unfolding fits
fits-leaf zero v h = rw (h, fits) refl
fits-leaf (suc levels) v h = rw (h, fits) refl

all-empty : (p : Json → Bool) (vs : List Json) → is_empty vs ≡ true → all p vs ≡ true
all-empty p [] h = refl
all-empty p (v ∷ vs) h = ground arith

fits-empty :
    (levels : ℕ) (v : Json) (vs : List Json)
    → children v ≡ some vs
    → is_empty vs ≡ true
    → fits levels v ≡ true
fits-empty zero v vs h e = fits-zero v vs h ∙ e
fits-empty (suc levels) v vs h e = fits-children levels v vs h ∙ all-empty (fits levels) vs e

within-leaf :
    (fuel m d : ℕ) (v : Json) (s : List (ℕ × Json))
    → children v ≡ none
    → within (suc fuel) m ((d, v) ∷ s) ≡ within fuel m s
unfolding within
within-leaf fuel m d v s h = rw (h, within) refl

within-deep :
    (fuel m d : ℕ) (v : Json) (vs : List Json) (s : List (ℕ × Json))
    → children v ≡ some vs
    → (leb m d && not (is_empty vs)) ≡ true
    → within (suc fuel) m ((d, v) ∷ s) ≡ false
unfolding within
within-deep fuel m d v vs s h e = rw (h, e, within) refl

within-push :
    (fuel m d : ℕ) (v : Json) (vs : List Json) (s : List (ℕ × Json))
    → children v ≡ some vs
    → (leb m d && not (is_empty vs)) ≡ false
    → within (suc fuel) m ((d, v) ∷ s) ≡ within fuel m (push (suc d) vs s)
unfolding within
within-push fuel m d v vs s h e = rw (h, e, within) refl

size-positive : (v : Json) → 1 ≤ size v
unfolding size
size-positive (Json.arr xs) = omega arith
size-positive (Json.obj fs) = omega arith
size-positive _ = omega arith

-- The values below the top one fit where it does, unless it has children and no level is left.
fits-push :
    (m d : ℕ) (v : Json) (vs : List Json)
    → children v ≡ some vs
    → (leb m d && not (is_empty vs)) ≡ false
    → fits (m - d) v ≡ all (fits (m - suc d)) vs
fits-push m d v vs h e = elim (Bool-cases (is_empty vs)) [
  | inl none_left ↦
      fits-empty (m - d) v vs h none_left ∙ sym (all-empty (fits (m - suc d)) vs none_left)
  | inr some_left ↦ ap (λ k. fits k v) (below (ground arith)) ∙ fits-children (m - suc d) v vs h
]
  where
    below : leb m d ≡ false → m - d ≡ suc (m - suc d)
    below b = ground arith

fits-deep :
    (m d : ℕ) (v : Json) (vs : List Json)
    → children v ≡ some vs
    → (leb m d && not (is_empty vs)) ≡ true
    → fits (m - d) v ≡ false
fits-deep m d v vs h e =
    ap (λ k. fits k v) (nothing (ground arith))
    ∙ fits-zero v vs h
    ∙ filled (is_empty vs) (ground arith)
  where
    nothing : leb m d ≡ true → m - d ≡ 0
    nothing b = ground arith

    filled : (b : Bool) → not b ≡ true → b ≡ false
    filled b h = ground arith

within-all_fit :
    (fuel m : ℕ) (s : List (ℕ × Json)) → stack_size s ≤ fuel → within fuel m s ≡ all_fit m s
unfolding within
within-all_fit fuel m [] h = refl
within-all_fit zero m ((d, v) ∷ s) h = ground (arith, size-positive v)
within-all_fit (suc fuel) m ((d, v) ∷ s) h = elim (Option-cases (children v)) [
  | inl leaf ↦
      within-leaf fuel m d v s leaf
      ∙ within-all_fit fuel m s (omega (arith, size-positive v))
      ∙ ap (λ b. b && all_fit m s) (sym (fits-leaf (m - d) v leaf))
  | inr (vs, some_vs) ↦ elim (Bool-cases (leb m d && not (is_empty vs))) [
    | inl deep ↦
        within-deep fuel m d v vs s some_vs deep
        ∙ ap (λ b. b && all_fit m s) (sym (fits-deep m d v vs some_vs deep))
    | inr go ↦
        within-push fuel m d v vs s some_vs go
        ∙ within-all_fit fuel m (push (suc d) vs s)
            (omega (arith, stack_size-push (suc d) vs s, children-size v vs some_vs))
        ∙ all_fit-push m (suc d) vs s
        ∙ ap (λ b. b && all_fit m s) (sym (fits-push m d v vs some_vs go))
  ]
]

pub is_json_depth_within_lem :
    (v : Json) (max_depth depth : ℕ)
    → is_json_depth_within v max_depth depth ≡ fits (max_depth - depth) v
unfolding is_json_depth_within
is_json_depth_within_lem v m d =
    within-all_fit (size v) m ((d, v) ∷ []) (omega arith) ∙ and-true (fits (m - d) v)
  where
    and-true : (b : Bool) → (b && true) ≡ b
    and-true b = ground arith
