-- ===== src/Api/Workspaces/Pages.antt =====
-- The pages of apps/api/src/postgres-workspaces.ts, read one after another by their cursors.
use spectro.Prelude.{
  ℕ, zero, suc, ◌≤◌, ◌<◌, ◌≡◌, refl, sym, ap, subst, ◌∙◌, Bool, true, false, Option, none, some,
  List, [], ◌∷◌, ◌++◌, append_assoc, append-nil, ltb, lt→ltb, ltb→lt, length, take, filter, All,
  arith, Bool-cases, inl, inr, Text,
}
use spectro.Api.Workspaces.{WorkspacePage, page, last, is_after_cursor}

take-take {ℓ} : {A : Type ℓ} (n : ℕ) (xs : List A) → take n (take (suc n) xs) ≡ take n xs
take-take zero xs = refl
take-take (suc n) [] = refl
take-take (suc n) (x ∷ xs) = ap (λ r. x ∷ r) (take-take n xs)

take_whole {ℓ} : {A : Type ℓ} (n : ℕ) (xs : List A) → length xs ≤ n → take n xs ≡ xs
take_whole zero [] h = refl
take_whole zero (x ∷ xs) h = absurd (omega arith)
take_whole (suc n) [] h = refl
take_whole (suc n) (x ∷ xs) h = ap (λ r. x ∷ r) (take_whole n xs (omega arith))

length-take_more {ℓ} :
    {A : Type ℓ} (n : ℕ) (xs : List A) → ltb n (length (take (suc n) xs)) ≡ ltb n (length xs)
length-take_more zero [] = refl
length-take_more zero (x ∷ xs) = ground arith
length-take_more (suc n) [] = refl
length-take_more (suc n) (x ∷ xs) = ground (arith, length-take_more n xs)

-- The first `n` of more than `n` elements end with one after which others are left.
abbrev IsCut {ℓ} : {A : Type ℓ} → ℕ → List A → Type ℓ
IsCut {A} n xs =
    (us : List A) × (z : A) × (vs : List A) × (xs ≡ us ++ z ∷ vs)
    × (take n xs ≡ us ++ z ∷ [])
    × (last (take n xs) ≡ some z)
    × (length vs < length xs)

cut {ℓ} : {A : Type ℓ} (n : ℕ) (xs : List A) → suc n < length xs → IsCut (suc n) xs
cut n [] h = absurd (omega arith)
cut zero (x ∷ xs) h = ([], x, xs, refl, refl, refl, omega arith)
cut (suc n) (x ∷ []) h = absurd (omega arith)
cut (suc n) (x ∷ y ∷ xs) h =
    let (us, z, vs, whole, front, ends, fewer) = cut n (y ∷ xs) (omega (arith, h)) in
    (x ∷ us, z, vs, ap (λ r. x ∷ r) whole, ap (λ r. x ∷ r) front, ends, omega (arith, fewer))

module _ {ℓ} {A : Type ℓ} (id : A → Text) (precedes : Text → Text → Bool)
    (asymmetric : (a b : Text) → precedes a b ≡ true → precedes b a ≡ false) where
  abbrev pub IsAscending : List A → Type 0
  IsAscending [] = Unit
  IsAscending (x ∷ xs) = All (λ y. precedes (id x) (id y) ≡ true) xs × IsAscending xs

  abbrev after : Option Text → List A → List A
  after c rows = filter (λ r. is_after_cursor precedes c (id r)) rows

  -- One page of the rows, as the two lists of the store make it.
  abbrev pub page_after : Option Text → (limit : ℕ) → List A → WorkspacePage A
  page_after c limit rows = page id (take (suc limit) (after c rows)) limit

  -- The pages from a cursor on, as many as `fuel` at most.
  abbrev pub read_on : (fuel : ℕ) → Option Text → (limit : ℕ) → List A → List A
  read_on zero c limit rows = []
  read_on (suc fuel) c limit rows =
      let p = page_after c limit rows in
      p.data_ ++ elim p.next_cursor [ none ↦ [] | some d ↦ read_on fuel (some d) limit rows ]

  irreflexive : (a : Text) → precedes a a ≡ false
  irreflexive a = elim (Bool-cases (precedes a a)) [ inl e ↦ asymmetric a a e | inr e ↦ e ]

  after_rest :
      (z : A) (ys : List A)
      → All (λ y. precedes (id z) (id y) ≡ true) ys
      → after (some (id z)) ys ≡ ys
  after_rest z [] h = refl
  after_rest z (y ∷ ys) (p, h) = rw (p, filter) (ap (λ r. y ∷ r) (after_rest z ys h))

  All-middle : (P : A → Type 0) (xs : List A) (z : A) (ys : List A) → All P (xs ++ z ∷ ys) → P z
  All-middle P [] z ys (p, h) = p
  All-middle P (x ∷ xs) z ys (p, h) = All-middle P xs z ys h

  after_middle :
      (xs : List A) (z : A) (ys : List A)
      → IsAscending (xs ++ z ∷ ys)
      → after (some (id z)) (xs ++ z ∷ ys) ≡ ys
  after_middle [] z ys (p, h) = rw (irreflexive (id z), filter) (after_rest z ys p)
  after_middle (x ∷ xs) z ys (p, h) =
      rw (asymmetric (id x) (id z) (All-middle _ xs z ys p), filter) (after_middle xs z ys h)

  -- What the last page is, and what one that is not the last is.
  page_last :
      (limit : ℕ) (ys : List A)
      → length ys ≤ limit
      → page id (take (suc limit) ys) limit ≡ record { data_ = ys; next_cursor = none }
  unfolding page
  page_last limit ys h =
      let more : ltb limit (length (take (suc limit) ys)) ≡ false =
        length-take_more limit ys ∙ ground (arith, h) in
      rw (more, take-take limit ys, take_whole limit ys h) refl

  page_more :
      (limit : ℕ) (ys : List A) (z : A)
      → limit < length ys
      → last (take limit ys) ≡ some z
      → page id (take (suc limit) ys) limit
        ≡ record { data_ = take limit ys; next_cursor = some (id z) }
  unfolding page
  page_more limit ys z h ends =
      let more : ltb limit (length (take (suc limit) ys)) ≡ true =
        length-take_more limit ys ∙ lt→ltb limit (length ys) h in
      rw (more, take-take limit ys, ends) refl

  read_rest :
      (fuel limit : ℕ) (c : Option Text) (xs ys rows : List A)
      → rows ≡ xs ++ ys
      → IsAscending rows
      → after c rows ≡ ys
      → length ys < fuel
      → read_on fuel c (suc limit) rows ≡ ys
  read_rest zero limit c xs ys rows whole up left enough = absurd (omega (arith, enough))
  read_rest (suc fuel) limit c xs ys rows whole up left enough =
      elim (Bool-cases (ltb (suc limit) (length ys))) [
        | inr few ↦ rw (left, page_last (suc limit) ys (ground (arith, few))) (append-nil ys)
        | inl many ↦
            let more = ltb→lt (suc limit) (length ys) many in
            let (us, z, vs, splits, front, ends, fewer) = cut limit ys more in
            let shifted : rows ≡ (xs ++ us) ++ z ∷ vs =
              whole ∙ ap (λ r. xs ++ r) splits ∙ sym (append_assoc xs us (z ∷ vs)) in
            let next_left : after (some (id z)) rows ≡ vs =
              ap (after (some (id z))) shifted
              ∙ after_middle (xs ++ us) z vs (subst IsAscending shifted up) in
            let rest =
              read_rest fuel limit (some (id z)) ((xs ++ us) ++ z ∷ []) vs rows
                (shifted ∙ sym (append_assoc (xs ++ us) (z ∷ []) vs)) up next_left
                (omega (arith, enough, fewer)) in
            rw (left, page_more (suc limit) ys z more ends, rest, front)
              (append_assoc us (z ∷ []) vs ∙ sym splits)
      ]

  after-none : (rows : List A) → after none rows ≡ rows
  after-none [] = refl
  after-none (r ∷ rows) = ap (λ rest. r ∷ rest) (after-none rows)

  -- Whoever reads the pages of rows in the order of their identifiers, each from the cursor of the one
  -- before, gets every row once and in order, for any limit but 0: the pages end within one request more
  -- than there are rows.
  pub read_on-all :
      (limit : ℕ) (rows : List A)
      → IsAscending rows
      → read_on (suc (length rows)) none (suc limit) rows ≡ rows
  read_on-all limit rows up =
      read_rest (suc (length rows)) limit none [] rows rows refl up (after-none rows) (omega arith)
