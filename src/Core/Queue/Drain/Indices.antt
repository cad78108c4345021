-- ===== src/Core/Queue/Drain/Indices.antt =====
-- Selections of positions of a list, as `drain` of packages/core/src/queue.ts makes them.
use mathlib.Core.List.Perm
use mathlib.Core.List.{perm_middle}
use mathlib.Core.Option.{some-injective}
use spectro.Prelude.{
  ℕ, zero, suc, ◌+◌, ◌≤◌, ◌<◌, ◌≡◌, inl, inr, refl, Bool, true, false, not, none, some, List, [],
  ◌∷◌, ◌++◌, Perm, arith, length, get_elem?, has, has-append, All_has, filter_index, All, All-map,
  Bool-cases,
}

module _ {ℓ} {A : Type ℓ} where
  -- The elements at the positions `js`, in that order.
  abbrev pub at_indices : List A → List ℕ → List A
  at_indices xs [] = []
  at_indices xs (j ∷ js) =
      let rest = at_indices xs js in elim (get_elem? xs j) [ none ↦ rest | some x ↦ x ∷ rest ]

  pub filter_index-perm :
      (p : ℕ → Bool) (i : ℕ) (xs : List A)
      → Perm (filter_index p i xs ++ filter_index (λ j. not (p j)) i xs) xs
  filter_index-perm p i [] = Perm.refl []
  filter_index-perm p i (x ∷ xs) = elim (Bool-cases (p i)) [
    | inl y ↦ rw y (Perm.cons x (filter_index-perm p (suc i) xs))
    | inr n ↦ rw n (Perm.trans (perm_middle _ _) (Perm.cons x (filter_index-perm p (suc i) xs)))
  ]

  pub All-filter_index {κ} :
      (P : A → Type κ) (p : ℕ → Bool) (i : ℕ) (xs : List A) → All P xs → All P (filter_index p i xs)
  All-filter_index P p i [] h = tt
  All-filter_index P p i (x ∷ xs) (q, h) = elim (Bool-cases (p i)) [
    | inl y ↦ rw y (q, All-filter_index P p (suc i) xs h)
    | inr n ↦ rw n (All-filter_index P p (suc i) xs h)
  ]

  filter_index_ext :
      (p r : ℕ → Bool) (i : ℕ) (xs : List A)
      → ((j : ℕ) → i ≤ j → p j ≡ r j)
      → filter_index p i xs ≡ filter_index r i xs
  filter_index_ext p r i [] h = refl
  filter_index_ext p r i (x ∷ xs) h =
      rw (h i (omega arith), filter_index_ext p r (suc i) xs (λ j l. h j (omega arith)))

  filter_index_none : (i : ℕ) (xs : List A) → filter_index (λ j. false) i xs ≡ []
  filter_index_none i [] = refl
  filter_index_none i (x ∷ xs) = filter_index_none (suc i) xs

  -- One more position, `m`: its element comes in.
  filter_index_add :
      (m k : ℕ) (js : List ℕ) (i : ℕ) (xs : List A) (x : A)
      → m ≡ i + k
      → has m js ≡ false
      → get_elem? xs k ≡ some x
      → Perm (filter_index (λ j. has j (m ∷ js)) i xs) (x ∷ filter_index (λ j. has j js) i xs)
  filter_index_add m k js i [] x e new at = cc
  filter_index_add m zero js i (y ∷ xs) x e new at =
      let this : i ≡ m = omega arith in
      let first : has i (m ∷ js) ≡ true = ground arith in
      let second : has i js ≡ false = rw this new in
      let rest =
        filter_index_ext (λ j. has j (m ∷ js)) (λ j. has j js) (suc i) xs (λ j l. ground arith) in
      rw (first, second, rest, some-injective y x at) (Perm.refl _)
  filter_index_add m (suc k) js i (y ∷ xs) x e new at =
      let ih = filter_index_add m k js (suc i) xs x (omega arith) new at in
      let same : has i (m ∷ js) ≡ has i js = ground arith in
      elim (Bool-cases (has i js)) [
        | inl old ↦ rw (same, old) (Perm.trans (Perm.cons y ih) (Perm.swap x y _))
        | inr other ↦ rw (same, other) ih
      ]

  get_elem?-lt : (xs : List A) (i : ℕ) → i < length xs → (x : A) × (get_elem? xs i ≡ some x)
  get_elem?-lt [] i h = absurd (omega arith)
  get_elem?-lt (x ∷ xs) zero h = (x, refl)
  get_elem?-lt (x ∷ xs) (suc i) h = get_elem?-lt xs i (omega arith)

-- No position twice.
abbrev pub Distinct : List ℕ → Type 0
Distinct [] = Unit
Distinct (j ∷ js) = (has j js ≡ false) × Distinct js

module _ {ℓ} {A : Type ℓ} where
  pub at_indices-perm :
      (xs : List A) (js : List ℕ)
      → Distinct js
      → All (λ j. j < length xs) js
      → Perm (filter_index (λ j. has j js) 0 xs) (at_indices xs js)
  at_indices-perm xs [] d h = rw (filter_index_none 0 xs) (Perm.refl [])
  at_indices-perm xs (j ∷ js) (new, d) (l, h) =
      let (x, at) = get_elem?-lt xs j l in
      rw (at, at_indices)
        (Perm.trans (filter_index_add j j js 0 xs x (omega arith) new at)
          (Perm.cons x (at_indices-perm xs js d h)))

  pub lt_of_get_elem? : (xs : List A) (i : ℕ) {x : A} → get_elem? xs i ≡ some x → i < length xs
  lt_of_get_elem? [] i h = cc
  lt_of_get_elem? (x ∷ xs) zero h = omega arith
  lt_of_get_elem? (x ∷ xs) (suc i) h = omega (arith, lt_of_get_elem? xs i h)

  pub at_indices-append :
      (xs : List A) (js : List ℕ) (i : ℕ) (x : A)
      → get_elem? xs i ≡ some x
      → at_indices xs (js ++ i ∷ []) ≡ at_indices xs js ++ x ∷ []
  at_indices-append xs [] i x at = rw (at, at_indices)
  at_indices-append xs (j ∷ js) i x at = ground (arith, at_indices-append xs js i x at)

pub Distinct-append :
    (xs ys : List ℕ)
    → Distinct xs
    → Distinct ys
    → All (λ y. has y xs ≡ false) ys
    → Distinct (xs ++ ys)
Distinct-append [] ys d e h = e
Distinct-append (x ∷ xs) ys (new, d) e h = (
  elim (Bool-cases (has x ys)) [
    | inl twice ↦ ground (arith, All_has (λ y. has y (x ∷ xs) ≡ false) ys x h twice)
    | inr once ↦ rw (has-append x xs ys, new) once
  ],
  Distinct-append xs ys d e
      (All-map (λ y. has y (x ∷ xs) ≡ false) (λ y. has y xs ≡ false) ys (λ y k. ground arith) h),
)
