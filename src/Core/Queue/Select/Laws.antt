-- ===== src/Core/Queue/Select/Laws.antt =====
-- What `selectImmediate` of packages/core/src/queue.ts selects.
use spectro.Prelude.{
  ℕ, zero, suc, ◌+◌, ◌≤◌, ◌<◌, ◌≡◌, ◌⊎◌, inl, inr, refl, Bool, true, ◌&&◌, Option, none, some, List,
  [], ◌∷◌, arith, ltb, get_elem?, has, has-append, All_has, All, All-append, All-map, Bool-cases,
  Option-cases, Text, text_eq_iff,
}
use spectro.Protocol.Event.{SpectroEvent, immediate, batch, is_immediate}
use spectro.Core.Queue.Defs.{QueueEntry}
use spectro.Core.Queue.Select.Positions.{
  At, indices_where-At, has-indices_where, has-selected_where,
}
use spectro.Core.Queue.Select.{
  context_window_ms, session_id, page_id, is_text, is_context, holds_at, add_context, context_of,
  add_contexts, indices_where, selected_where, select_immediate,
}

-- The entry `e` is context of the urgent event `u`: a batch entry of the same session and page, at
-- most ten seconds older.
pub record IsContext (u : SpectroEvent) (e : QueueEntry) : Type 0 where
  pub session : Text
  pub page : Text
  pub urgent_session : session_id u ≡ some session
  pub urgent_page : page_id u ≡ some page
  pub same_session : session_id e.event ≡ some session
  pub same_page : page_id e.event ≡ some page
  pub low : e.priority ≡ batch
  pub older : e.event.timestamp ≤ u.timestamp
  pub recent : u.timestamp ≤ e.event.timestamp + context_window_ms

is_text-some : (o : Option Text) (t : Text) → is_text o t ≡ true → o ≡ some t
is_text-some none t h = cc
is_text-some (some s) t h = ground (arith, text_eq_iff s t)

is_context-IsContext :
    (s p : Text) (u : SpectroEvent) (e : QueueEntry)
    → session_id u ≡ some s
    → page_id u ≡ some p
    → is_context s p u e ≡ true
    → IsContext u e
unfolding is_context
is_context-IsContext s p u e hs hp h = record {
  session = s;
  page = p;
  urgent_session = hs;
  urgent_page = hp;
  same_session = is_text-some (session_id e.event) s (ground arith);
  same_page = is_text-some (page_id e.event) p (ground arith);
  low = ground arith;
  older = ground arith;
  recent = ground arith;
}

module _ (events : List QueueEntry) where
  -- The position `i` holds an immediate entry, or context of an immediate entry behind it.
  abbrev pub IsUrgent : ℕ → Type 0
  IsUrgent i = (e : QueueEntry) × (get_elem? events i ≡ some e) × (is_immediate e.priority ≡ true)

  abbrev pub IsContextAt : ℕ → Type 0
  IsContextAt i =
      (e : QueueEntry) × (get_elem? events i ≡ some e)
      × (j : ℕ) × (i < j)
      × (u : QueueEntry) × (get_elem? events j ≡ some u)
      × (is_immediate u.priority ≡ true)
      × IsContext u.event e

  abbrev pub IsWanted : ℕ → Type 0
  IsWanted i = IsUrgent i ⊎ IsContextAt i

  module _ (p : QueueEntry → Bool) (j : ℕ) (u : QueueEntry) (at : get_elem? events j ≡ some u)
      (urgent : is_immediate u.priority ≡ true)
      (right : (e : QueueEntry) → p e ≡ true → IsContext u.event e) where
    holds_at-IsContextAt : (i : ℕ) → i < j → holds_at events p i ≡ true → IsContextAt i
    holds_at-IsContextAt i l h = elim (Option-cases (get_elem? events i)) [
      | inl gone ↦ ground (arith, gone)
      | inr (e, there) ↦ (e, there, j, l, u, at, urgent, right e (ground (arith, there)))
    ]

    add_context-IsWanted :
        (i count : ℕ) (selected : List ℕ)
        → i ≤ j
        → All IsWanted selected
        → All IsWanted (add_context events p i count selected)
    unfolding add_context
    add_context-IsWanted zero count selected l a = a
    add_context-IsWanted (suc i) count selected l a = elim (Bool-cases (ltb count 8)) [
      | inr enough ↦ rw (enough, add_context) a
      | inl more ↦ elim (Bool-cases (holds_at events p i)) [
        | inl y ↦
            rw (more, y, add_context)
              (add_context-IsWanted i (count + 1) (i ∷ selected) (omega arith)
                (inr (holds_at-IsContextAt i (omega arith) y), a))
        | inr n ↦ rw (more, n, add_context) (add_context-IsWanted i count selected (omega arith) a)
      ]
    ]

  context_of-IsWanted :
      (j : ℕ) (u : QueueEntry) (selected : List ℕ)
      → get_elem? events j ≡ some u
      → is_immediate u.priority ≡ true
      → All IsWanted selected
      → All IsWanted (context_of events j u selected)
  context_of-IsWanted j u selected at urgent a = elim (Option-cases (session_id u.event)) [
    | inl gone ↦ rw (gone, context_of) a
    | inr (s, hs) ↦ elim (Option-cases (page_id u.event)) [
      | inl gone ↦ rw (hs, gone, context_of) a
      | inr (p, hp) ↦
          rw (hs, hp, context_of)
            (add_context-IsWanted (is_context s p u.event) j u at urgent
              (λ e h. is_context-IsContext s p u.event e hs hp h) j 0 selected (omega arith) a)
    ]
  ]

  add_contexts-IsWanted :
      (js selected : List ℕ)
      → All IsUrgent js
      → All IsWanted selected
      → All IsWanted (add_contexts events js selected)
  unfolding add_contexts
  add_contexts-IsWanted [] selected h a = a
  add_contexts-IsWanted (j ∷ js) selected ((u, at, urgent), h) a =
      rw (at, add_contexts)
        (add_contexts-IsWanted js _ h (context_of-IsWanted j u selected at urgent a))

  add_context-has :
      (p : QueueEntry → Bool) (i count : ℕ) (selected : List ℕ) (m : ℕ)
      → has m selected ≡ true
      → has m (add_context events p i count selected) ≡ true
  unfolding add_context
  add_context-has p zero count selected m h = h
  add_context-has p (suc i) count selected m h = ground (
    arith,
    add_context-has p i (count + 1) (i ∷ selected) m,
    add_context-has p i count selected m h,
  )

  context_of-has :
      (j : ℕ) (u : QueueEntry) (selected : List ℕ) (m : ℕ)
      → has m selected ≡ true
      → has m (context_of events j u selected) ≡ true
  context_of-has j u selected m h = elim (Option-cases (session_id u.event)) [
    | inl gone ↦ rw (gone, context_of) h
    | inr (s, hs) ↦ elim (Option-cases (page_id u.event)) [
      | inl gone ↦ rw (hs, gone, context_of) h
      | inr (p, hp) ↦
          rw (hs, hp, context_of) (add_context-has (is_context s p u.event) j 0 selected m h)
    ]
  ]

  add_contexts-has :
      (js selected : List ℕ) (m : ℕ)
      → has m selected ≡ true
      → has m (add_contexts events js selected) ≡ true
  unfolding add_contexts
  add_contexts-has [] selected m h = h
  add_contexts-has (j ∷ js) selected m h = elim (Option-cases (get_elem? events j)) [
    | inl gone ↦ rw (gone, add_contexts) (add_contexts-has js selected m h)
    | inr (u, at) ↦
        rw (at, add_contexts) (add_contexts-has js _ m (context_of-has j u selected m h))
  ]

  At-IsUrgent :
      (js : List ℕ) → All (At (λ e. is_immediate e.priority) 0 events) js → All IsUrgent js
  At-IsUrgent js h =
      All-map (At (λ e. is_immediate e.priority) 0 events) IsUrgent js
        (λ j a. (a.1, rw (j_eq j a.0 a.2) a.3, a.4)) h
    where
      j_eq : (j k : ℕ) → j ≡ 0 + k → j ≡ k
      j_eq j k e = omega arith

  selected_where-IsWanted :
      (p : QueueEntry → Bool) (selected : List ℕ) (i : ℕ) (es : List QueueEntry)
      → All IsWanted selected
      → All IsWanted (selected_where selected p i es)
  unfolding selected_where
  selected_where-IsWanted p selected i [] a = tt
  selected_where-IsWanted p selected i (e ∷ es) a =
      let later = selected_where-IsWanted p selected (suc i) es a in
      elim (Bool-cases (has i selected && p e)) [
        | inl y ↦ rw y (All_has IsWanted selected i a (ground arith), later)
        | inr n ↦ rw n later
      ]

  -- Every position that `selectImmediate` returns holds an immediate entry, or a batch entry that
  -- is context of an immediate entry behind it: of the same session and page, not later than it and
  -- at most ten seconds older.
  pub select_immediate-IsWanted : All IsWanted (select_immediate events)
  unfolding select_immediate
  select_immediate-IsWanted =
      let urgent = At-IsUrgent _ (indices_where-At _ 0 events) in
      let wanted =
        add_contexts-IsWanted _ _ urgent (All-map IsUrgent IsWanted _ (λ j u. inl u) urgent) in
      All-append IsWanted _ _ (selected_where-IsWanted _ _ 0 events wanted)
        (selected_where-IsWanted _ _ 0 events wanted)

  -- `selectImmediate` returns the position of every immediate entry.
  pub select_immediate_complete :
      (i : ℕ) (e : QueueEntry)
      → get_elem? events i ≡ some e
      → e.priority ≡ immediate
      → has i (select_immediate events) ≡ true
  unfolding select_immediate
  select_immediate_complete i e at h =
      let low : is_immediate e.priority ≡ true = rw h refl in
      let urgent = indices_where (λ x. is_immediate x.priority) 0 events in
      let listed =
        has-indices_where (λ x. is_immediate x.priority) i 0 i events (omega arith) at low in
      let kept = add_contexts-has urgent urgent i listed in
      let first =
        has-selected_where (add_contexts events urgent urgent) (λ x. is_immediate x.priority) i 0 i
          events (omega arith) at low kept in
      rw (has-append i, first) refl
