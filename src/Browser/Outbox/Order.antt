-- ===== src/Browser/Outbox/Order.antt =====
-- The insertion sort `ordered` of packages/browser/src/outbox.ts.
use mathlib.Core.List.{perm_middle}
use mathlib.Core.List.Perm
use spectro.Prelude.{
  subst, refl, ℕ, ◌≤◌, List, [], ◌∷◌, ◌++◌, Perm, arith, ltb, Bool-cases, inl, inr, All, append-nil,
}
use spectro.Browser.Outbox.{insert, ordered_from, ordered}

module _ {ℓ} {A : Type ℓ} (rank : A → ℕ) where
  -- The ranks never fall.
  abbrev pub IsSorted : List A → Type 0
  IsSorted [] = Unit
  IsSorted (v ∷ vs) = All (λ w. rank v ≤ rank w) vs × IsSorted vs

  All-insert :
      (a : ℕ) (v : A) (vs : List A)
      → a ≤ rank v
      → All (λ w. a ≤ rank w) vs
      → All (λ w. a ≤ rank w) (insert rank v vs)
  All-insert a v [] h k = (h, tt)
  All-insert a v (w ∷ ws) h (l, k) = elim (Bool-cases (ltb (rank v) (rank w))) [
    | inl e ↦ rw e (h, (l, k))
    | inr e ↦ rw e (l, All-insert a v ws h k)
  ]

  All-above : (a b : ℕ) (vs : List A) → a ≤ b → All (λ w. b ≤ rank w) vs → All (λ w. a ≤ rank w) vs
  All-above a b [] h k = tt
  All-above a b (v ∷ vs) h (l, k) = (omega arith, All-above a b vs h k)

  insert-IsSorted : (v : A) (vs : List A) → IsSorted vs → IsSorted (insert rank v vs)
  insert-IsSorted v [] h = (tt, tt)
  insert-IsSorted v (w ∷ ws) (l, h) = elim (Bool-cases (ltb (rank v) (rank w))) [
    | inl e ↦ rw e ((ground arith, All-above (rank v) (rank w) ws (ground arith) l), (l, h))
    | inr e ↦ rw e (All-insert (rank w) v ws (ground arith) l, insert-IsSorted v ws h)
  ]

  insert-perm : (v : A) (vs : List A) → Perm (insert rank v vs) (v ∷ vs)
  insert-perm v [] = Perm.refl (v ∷ [])
  insert-perm v (w ∷ ws) = elim (Bool-cases (ltb (rank v) (rank w))) [
    | inl e ↦ rw e (Perm.refl (v ∷ w ∷ ws))
    | inr e ↦ rw e (Perm.trans (Perm.cons w (insert-perm v ws)) (Perm.swap v w ws))
  ]

  ordered_from-IsSorted : (rs vs : List A) → IsSorted rs → IsSorted (ordered_from rank rs vs)
  ordered_from-IsSorted rs [] h = h
  ordered_from-IsSorted rs (v ∷ vs) h =
      ordered_from-IsSorted (insert rank v rs) vs (insert-IsSorted v rs h)

  ordered_from-perm : (rs vs : List A) → Perm (ordered_from rank rs vs) (vs ++ rs)
  ordered_from-perm rs [] = Perm.refl rs
  ordered_from-perm rs (v ∷ vs) =
      Perm.trans (ordered_from-perm (insert rank v rs) vs)
        (Perm.trans (Perm.append_left vs (insert-perm v rs)) (perm_middle vs rs))

  -- `ordered` returns the values it is given, in the order of their ranks.
  pub ordered_lem : (vs : List A) → IsSorted (ordered rank vs) × Perm (ordered rank vs) vs
  unfolding ordered
  ordered_lem vs = (
    ordered_from-IsSorted [] vs tt,
    subst (λ x. Perm (ordered_from rank [] vs) x) (append-nil vs) (ordered_from-perm [] vs),
  )
