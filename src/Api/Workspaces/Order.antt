-- ===== src/Api/Workspaces/Order.antt =====
-- Rows sorted by their identifiers, as apps/api/src/postgres-workspaces.ts reads them: `ORDER BY` and a
-- condition may be exchanged, and the rows are ascending where no identifier stands twice.
use spectro.Prelude.{
  ◌≡◌, refl, sym, ap, ◌∙◌, Bool, true, false, List, [], ◌∷◌, filter, sort_by, insert_by, All,
  Bool-cases, inl, inr, Text, text_eq,
}
use spectro.Api.Workspaces.Pages.{IsAscending}

-- A strict order of the identifiers.
pub record IsOrder (precedes : Text → Text → Bool) : Type 0 where
  pub asymmetric : (a b : Text) → precedes a b ≡ true → precedes b a ≡ false
  pub transitive : (a b c : Text) → precedes a b ≡ true → precedes b c ≡ true → precedes a c ≡ true
  pub total : (a b : Text) → precedes a b ≡ false → text_eq a b ≡ false → precedes b a ≡ true

module _ {A : Type 0} (id : A → Text) (precedes : Text → Text → Bool)
    (order : IsOrder precedes) where
  abbrev by_id : A → A → Bool
  by_id a b = precedes (id a) (id b)

  abbrev pub IsDistinct : List A → Type 0
  IsDistinct [] = Unit
  IsDistinct (x ∷ xs) = All (λ y. text_eq (id y) (id x) ≡ false) xs × IsDistinct xs

  All-insert_by :
      (P : A → Type 0) (x : A) (ys : List A) → P x → All P ys → All P (insert_by by_id x ys)
  All-insert_by P x [] p h = (p, tt)
  All-insert_by P x (y ∷ ys) p (q, h) = elim (Bool-cases (by_id y x)) [
    | inl e ↦ rw e (q, All-insert_by P x ys p h)
    | inr e ↦ rw e (p, (q, h))
  ]

  All-sort_by : (P : A → Type 0) (xs : List A) → All P xs → All P (sort_by by_id xs)
  All-sort_by P [] h = tt
  All-sort_by P (x ∷ xs) (p, h) = All-insert_by P x (sort_by by_id xs) p (All-sort_by P xs h)

  All-further :
      (x y : A) (ys : List A)
      → by_id x y ≡ true
      → All (λ z. by_id y z ≡ true) ys
      → All (λ z. by_id x z ≡ true) ys
  All-further x y [] e h = tt
  All-further x y (z ∷ ys) e (p, h) =
      (order.transitive (id x) (id y) (id z) e p, All-further x y ys e h)

  insert_by-IsAscending :
      (x : A) (ys : List A)
      → All (λ y. text_eq (id y) (id x) ≡ false) ys
      → IsAscending id precedes order.asymmetric ys
      → IsAscending id precedes order.asymmetric (insert_by by_id x ys)
  insert_by-IsAscending x [] other h = (tt, tt)
  insert_by-IsAscending x (y ∷ ys) (different, other) (least, h) = elim (Bool-cases (by_id y x)) [
    | inl e ↦
        rw e
          (All-insert_by (λ z. by_id y z ≡ true) x ys e least, insert_by-IsAscending x ys other h)
    | inr e ↦
        let first = order.total (id y) (id x) e different in
        rw e ((first, All-further x y ys first least), (least, h))
  ]

  pub sort_by-IsAscending :
      (xs : List A) → IsDistinct xs → IsAscending id precedes order.asymmetric (sort_by by_id xs)
  sort_by-IsAscending [] h = tt
  sort_by-IsAscending (x ∷ xs) (other, h) =
      insert_by-IsAscending x (sort_by by_id xs) (All-sort_by _ xs other) (sort_by-IsAscending xs h)

  -- Nothing among `zs` precedes `x`.
  insert_first :
      (x : A) (zs : List A) → All (λ z. by_id z x ≡ false) zs → insert_by by_id x zs ≡ x ∷ zs
  insert_first x [] h = refl
  insert_first x (z ∷ zs) (e, h) = rw e refl

  All-behind :
      (x y : A) (ys : List A)
      → by_id y x ≡ false
      → All (λ z. by_id y z ≡ true) ys
      → All (λ z. by_id z x ≡ false) ys
  All-behind x y [] e h = tt
  All-behind x y (z ∷ ys) e (p, h) = (
    elim (Bool-cases (by_id z x)) [
      | inl q ↦ cc (order.transitive (id y) (id z) (id x) p q, e)
      | inr q ↦ q
    ],
    All-behind x y ys e h,
  )

  All-kept : (P : A → Type 0) (p : A → Bool) (xs : List A) → All P xs → All P (filter p xs)
  All-kept P p [] h = tt
  All-kept P p (x ∷ xs) (q, h) = elim (Bool-cases (p x)) [
    | inl e ↦ rw e (q, All-kept P p xs h)
    | inr e ↦ rw e (All-kept P p xs h)
  ]

  filter-insert_out :
      (p : A → Bool) (x : A) (ys : List A)
      → p x ≡ false
      → filter p (insert_by by_id x ys) ≡ filter p ys
  filter-insert_out p x [] out = rw out refl
  filter-insert_out p x (y ∷ ys) out = elim (Bool-cases (by_id y x)) [
    | inl e ↦ rw (e, filter-insert_out p x ys out) refl
    | inr e ↦ rw (e, out) refl
  ]

  filter-insert_in :
      (p : A → Bool) (x : A) (ys : List A)
      → p x ≡ true
      → IsAscending id precedes order.asymmetric ys
      → filter p (insert_by by_id x ys) ≡ insert_by by_id x (filter p ys)
  filter-insert_in p x [] kept h = rw kept refl
  filter-insert_in p x (y ∷ ys) kept (least, h) = elim (Bool-cases (by_id y x)) [
    | inl e ↦ elim (Bool-cases (p y)) [
      | inl k ↦ rw (e, k, e) (ap (λ l. y ∷ l) (filter-insert_in p x ys kept h))
      | inr k ↦ rw (e, k) (filter-insert_in p x ys kept h)
    ]
    | inr e ↦ elim (Bool-cases (p y)) [
      | inl k ↦ rw (e, kept, k, e) refl
      | inr k ↦
          rw (e, kept, k)
            (sym (insert_first x (filter p ys) (All-kept _ p ys (All-behind x y ys e least))))
    ]
  ]

  pub filter-sort_by :
      (p : A → Bool) (xs : List A)
      → IsDistinct xs
      → sort_by by_id (filter p xs) ≡ filter p (sort_by by_id xs)
  filter-sort_by p [] h = refl
  filter-sort_by p (x ∷ xs) (other, h) = elim (Bool-cases (p x)) [
    | inl kept ↦ rw kept (
        ap (insert_by by_id x) (filter-sort_by p xs h)
        ∙ sym (filter-insert_in p x (sort_by by_id xs) kept (sort_by-IsAscending xs h)))
    | inr out ↦ rw out (filter-sort_by p xs h ∙ sym (filter-insert_out p x (sort_by by_id xs) out))
  ]
