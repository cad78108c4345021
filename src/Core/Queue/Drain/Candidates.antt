-- ===== src/Core/Queue/Drain/Candidates.antt =====
-- The candidates of `drain` in packages/core/src/queue.ts name no position twice.
use mathlib.Core.Option.{some-injective}
use spectro.Prelude.{
  ℕ, suc, ◌≤◌, ◌≡◌, inl, inr, refl, sym, ap, ◌∙◌, Bool, false, ◌&&◌, Option, none, some, List, [],
  ◌∷◌, arith, has, All, All-map, All_has, Bool-cases, indices_from,
}
use spectro.Protocol.Event.{DeliveryPriority, immediate, batch, is_batch, is_immediate}
use spectro.Core.Queue.Defs.{QueueEntry}
use spectro.Core.Queue.Select.{selected_where, select_immediate}
use spectro.Core.Queue.Drain.{candidates}
use spectro.Core.Queue.Select.Positions.{At, selected_where-At}
use spectro.Core.Queue.Drain.Indices.{Distinct, Distinct-append}

above_fresh : (i : ℕ) (js : List ℕ) → All (λ j. suc i ≤ j) js → has i js ≡ false
above_fresh i [] h = refl
above_fresh i (j ∷ js) (l, h) = ground (arith, above_fresh i js h)

above_weaken : (i : ℕ) (js : List ℕ) → All (λ j. suc i ≤ j) js → All (λ j. i ≤ j) js
above_weaken i js h = All-map (λ j. suc i ≤ j) (λ j. i ≤ j) js (λ j k. omega arith) h

indices_from-above {ℓ} : {A : Type ℓ} (i : ℕ) (xs : List A) → All (λ j. i ≤ j) (indices_from i xs)
indices_from-above i [] = tt
indices_from-above i (x ∷ xs) = (omega arith, above_weaken i _ (indices_from-above (suc i) xs))

indices_from-Distinct {ℓ} : {A : Type ℓ} (i : ℕ) (xs : List A) → Distinct (indices_from i xs)
indices_from-Distinct i [] = tt
indices_from-Distinct i (x ∷ xs) =
    (above_fresh i _ (indices_from-above (suc i) xs), indices_from-Distinct (suc i) xs)

module _ (selected : List ℕ) (p : QueueEntry → Bool) where
  selected_where-above :
      (i : ℕ) (es : List QueueEntry) → All (λ j. i ≤ j) (selected_where selected p i es)
  selected_where-above i es =
      All-map (At p i es) (λ j. i ≤ j) _ (λ j a. omega (arith, a.2))
        (selected_where-At selected p i es)

  selected_where-Distinct :
      (i : ℕ) (es : List QueueEntry) → Distinct (selected_where selected p i es)
  unfolding selected_where
  selected_where-Distinct i [] = tt
  selected_where-Distinct i (e ∷ es) =
      let ih = selected_where-Distinct (suc i) es in
      elim (Bool-cases (has i selected && p e)) [
        | inl y ↦ rw y (above_fresh i _ (selected_where-above (suc i) es), ih)
        | inr n ↦ rw n ih
      ]

-- One entry is not both.
At-apart :
    (es : List QueueEntry) (j : ℕ)
    → At (λ e. is_immediate e.priority) 0 es j
    → At (λ e. is_batch e.priority) 0 es j
    → ⊥
At-apart es j (k, e, same, at, urgent) (k', e', same', at', low) =
    let there : k' ≡ k = omega arith in
    let one : e ≡ e' = some-injective e e' (sym at ∙ rw there at at') in
    ground (arith, ap (λ x. x.priority) one)

select_immediate-Distinct : (es : List QueueEntry) → Distinct (select_immediate es)
unfolding select_immediate
select_immediate-Distinct es =
    Distinct-append _ _ (selected_where-Distinct _ _ 0 es) (selected_where-Distinct _ _ 0 es) (
      All-map (At (λ e. is_batch e.priority) 0 es) _ _
        (λ j low. elim (Bool-cases (has j _)) [
          | inl both ↦ absurd (At-apart es j (All_has _ _ j (selected_where-At _ _ 0 es) both) low)
          | inr n ↦ n
        ])
        (selected_where-At _ _ 0 es))

pub candidates-Distinct :
    (es : List QueueEntry) (p : Option DeliveryPriority) → Distinct (candidates es p)
candidates-Distinct es none = indices_from-Distinct 0 es
candidates-Distinct es (some immediate) = select_immediate-Distinct es
candidates-Distinct es (some batch) = indices_from-Distinct 0 es
