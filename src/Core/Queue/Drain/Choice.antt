-- ===== src/Core/Queue/Drain/Choice.antt =====
-- The loop of `drain` in packages/core/src/queue.ts that chooses the positions to send.
use mathlib.Core.List.{map-append}
use spectro.Prelude.{
  ℕ, ◌≤◌, ◌<◌, ◌≡◌, ◌⊎◌, inl, inr, refl, false, some, List, [], ◌∷◌, ◌++◌, map, arith, leb, ltb,
  length, length-append, get_elem?, has, has-append, All, All-append, Bool-cases, Option-cases,
}
use spectro.Protocol.Event.{SpectroEvent, Envelope, ByteLength}
use spectro.Core.Queue.Defs.{QueueEntry}
use spectro.Core.Queue.Drain.{choose}
use spectro.Core.Queue.Drain.Indices.{
  Distinct, Distinct-append, at_indices, at_indices-append, lt_of_get_elem?,
}

module _ (bytes : ByteLength) (events : List QueueEntry) (limit maximum now : ℕ) where
  abbrev pub envelope_of : List SpectroEvent → Envelope
  envelope_of items = record { sent_at = now; items = items }

  -- The positions `js` with the trial envelope's items: within the limit of events, and within that
  -- of bytes if there is an item.
  pub record Chosen (js : List ℕ) (items : List SpectroEvent) : Type 0 where
    pub distinct : Distinct js
    pub inside : All (λ j. j < length events) js
    pub few : length js ≤ limit
    pub items_eq : items ≡ map (λ e. e.event) (at_indices events js)
    pub fits : (items ≡ []) ⊎ (bytes.envelope (envelope_of items) ≤ maximum)

  abbrev Fresh : List ℕ → List ℕ → Type 0
  Fresh js is = All (λ i. has i js ≡ false) is

  Fresh-add : (i : ℕ) (js is : List ℕ) → has i is ≡ false → Fresh js is → Fresh (js ++ i ∷ []) is
  Fresh-add i js [] h f = tt
  Fresh-add i js (j ∷ is) h (g, f) =
      (ground (arith, has-append j js (i ∷ [])), Fresh-add i js is (ground arith) f)

  Chosen-add :
      (js : List ℕ) (items : List SpectroEvent) (i : ℕ) (e : QueueEntry)
      → Chosen js items
      → has i js ≡ false
      → length js < limit
      → get_elem? events i ≡ some e
      → bytes.envelope (envelope_of (items ++ e.event ∷ [])) ≤ maximum
      → Chosen (js ++ i ∷ []) (items ++ e.event ∷ [])
  Chosen-add js items i e c new room at fits = record {
    distinct = Distinct-append js (i ∷ []) c.distinct (refl, tt) (new, tt);
    inside = All-append _ js (i ∷ []) c.inside (lt_of_get_elem? events i at, tt);
    few = omega (arith, length-append js (i ∷ []));
    items_eq = rw (at_indices-append events js i e at, map-append, ← c.items_eq);
    fits = inr fits;
  }

  pub choose-Chosen :
      (is js : List ℕ) (items : List SpectroEvent)
      → Distinct is
      → Fresh js is
      → Chosen js items
      → (items' : List SpectroEvent) × Chosen
          (choose bytes events limit maximum now is js items)
          items'
  unfolding choose
  choose-Chosen [] js items d f c = (items, c)
  choose-Chosen (i ∷ is) js items (new, d) (g, f) c = elim (Bool-cases (leb limit (length js))) [
    | inl full ↦ rw (full, choose) (items, c)
    | inr more ↦ elim (Option-cases (get_elem? events i)) [
      | inl gone ↦ rw (more, gone, choose) (choose-Chosen is js items d f c)
      | inr (e, at) ↦
          elim (Bool-cases (ltb maximum (bytes.envelope (envelope_of (items ++ e.event ∷ []))))) [
            | inl over ↦ rw (more, at, over, choose) (choose-Chosen is js items d f c)
            | inr fits ↦
                rw (more, at, fits, choose)
                  (choose-Chosen is (js ++ i ∷ []) (items ++ e.event ∷ []) d
                    (Fresh-add i js is new f)
                    (Chosen-add js items i e c g (ground arith) at (ground arith)))
          ]
    ]
  ]
