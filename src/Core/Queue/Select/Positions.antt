-- ===== src/Core/Queue/Select/Positions.antt =====
-- The positions that the loops of `selectImmediate` in packages/core/src/queue.ts collect.
use spectro.Prelude.{
  ℕ, zero, suc, ◌+◌, ◌≡◌, inl, inr, refl, Bool, true, ◌&&◌, some, List, [], ◌∷◌, arith, get_elem?,
  has, All, All-map, Bool-cases,
}
use spectro.Core.Queue.Defs.{QueueEntry}
use spectro.Core.Queue.Select.{indices_where, selected_where}

-- The position `j` of the list whose first position is `i` holds an entry with `p`.
abbrev pub At : (QueueEntry → Bool) → ℕ → List QueueEntry → ℕ → Type 0
At p i es j = (k : ℕ) × (e : QueueEntry) × (j ≡ i + k) × (get_elem? es k ≡ some e) × (p e ≡ true)

At-suc :
    (p : QueueEntry → Bool) (i : ℕ) (e : QueueEntry) (es : List QueueEntry) (js : List ℕ)
    → All (At p (suc i) es) js
    → All (At p i (e ∷ es)) js
At-suc p i e es js h =
    All-map (At p (suc i) es) (At p i (e ∷ es)) js
      (λ j a. (suc a.0, a.1, omega (arith, a.2), a.3, a.4)) h

pub indices_where-At :
    (p : QueueEntry → Bool) (i : ℕ) (es : List QueueEntry) → All (At p i es) (indices_where p i es)
unfolding indices_where
indices_where-At p i [] = tt
indices_where-At p i (e ∷ es) =
    let later = At-suc p i e es _ (indices_where-At p (suc i) es) in
    elim (Bool-cases (p e)) [
      | inl y ↦ rw y ((0, e, omega arith, refl, y), later)
      | inr n ↦ rw n later
    ]

-- Every position that qualifies is there.
pub has-indices_where :
    (p : QueueEntry → Bool) (m i k : ℕ) (es : List QueueEntry) {e : QueueEntry}
    → m ≡ i + k
    → get_elem? es k ≡ some e
    → p e ≡ true
    → has m (indices_where p i es) ≡ true
unfolding indices_where
has-indices_where p m i k [] same at h = cc
has-indices_where p m i zero (x ∷ es) same at h = ground arith
has-indices_where p m i (suc k) (x ∷ es) same at h =
    let ih = has-indices_where p m (suc i) k es (omega arith) at h in ground arith

pub has-selected_where :
    (selected : List ℕ) (p : QueueEntry → Bool) (m i k : ℕ) (es : List QueueEntry) {e : QueueEntry}
    → m ≡ i + k
    → get_elem? es k ≡ some e
    → p e ≡ true
    → has m selected ≡ true
    → has m (selected_where selected p i es) ≡ true
unfolding selected_where
has-selected_where selected p m i k [] same at h s = cc
has-selected_where selected p m i zero (x ∷ es) same at h s = ground arith
has-selected_where selected p m i (suc k) (x ∷ es) same at h s =
    let ih = has-selected_where selected p m (suc i) k es (omega arith) at h s in ground arith

module _ (selected : List ℕ) (p : QueueEntry → Bool) where
  pub selected_where-At :
      (i : ℕ) (es : List QueueEntry) → All (At p i es) (selected_where selected p i es)
  unfolding selected_where
  selected_where-At i [] = tt
  selected_where-At i (e ∷ es) =
      let later = At-suc p i e es _ (selected_where-At (suc i) es) in
      elim (Bool-cases (has i selected && p e)) [
        | inl y ↦ rw y ((0, e, omega arith, refl, ground arith), later)
        | inr n ↦ rw n later
      ]
