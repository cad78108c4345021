-- ===== src/Core/Queue/Select.antt =====
-- `selectImmediate` of packages/core/src/queue.ts.
pub mod Positions
pub mod Laws
use spectro.Prelude.{
  ℕ, zero, suc, ◌+◌, ◌-◌, Bool, true, false, ◌&&◌, Option, none, some, List, [], ◌∷◌, ◌++◌, ltb,
  leb, if◌then◌else◌, get_elem?, has, text_eq, Text,
}
use spectro.Protocol.Event.{SpectroEvent, is_batch, is_immediate}
use spectro.Core.Queue.Defs.{QueueEntry}

abbrev pub max_context_events : ℕ
max_context_events = 8

abbrev pub context_window_ms : ℕ
context_window_ms = 10000

abbrev pub session_id : SpectroEvent → Option Text
session_id e = elim e.context.session [ none ↦ none | some s ↦ some s.id ]

abbrev pub page_id : SpectroEvent → Option Text
page_id e = elim e.context.page [ none ↦ none | some p ↦ some p.id ]

-- `a === b`, where `b` is a string.
abbrev pub is_text : Option Text → Text → Bool
is_text none b = false
is_text (some a) b = text_eq a b

-- The condition on a context entry: a batch event of the same session and page, not later than the
-- urgent event and inside the window.
unfoldable pub is_context : (session page : Text) → SpectroEvent → QueueEntry → Bool
is_context session page urgent e =
    is_batch e.priority
    && is_text (session_id e.event) session
    && is_text (page_id e.event) page
    && leb e.event.timestamp urgent.timestamp
    && leb (urgent.timestamp - e.event.timestamp) context_window_ms

-- `i, i + 1, …` where the entry there satisfies `p`, for the entries that are left.
unfoldable pub indices_where : (QueueEntry → Bool) → ℕ → List QueueEntry → List ℕ
indices_where p i [] = []
indices_where p i (e ∷ es) = let rest = indices_where p (suc i) es in if p e then i ∷ rest else rest

unfoldable pub selected_where : List ℕ → (QueueEntry → Bool) → ℕ → List QueueEntry → List ℕ
selected_where selected p i [] = []
selected_where selected p i (e ∷ es) =
    let rest = selected_where selected p (suc i) es in
    if has i selected && p e then i ∷ rest else rest

module _ (events : List QueueEntry) where
  abbrev pub holds_at : (QueueEntry → Bool) → ℕ → Bool
  holds_at p i = elim (get_elem? events i) [ none ↦ false | some e ↦ p e ]

  -- The inner loop, over the `i` entries before the urgent one, from the last.
  unfoldable pub add_context : (QueueEntry → Bool) → (i count : ℕ) → List ℕ → List ℕ
  add_context p zero count selected = selected
  add_context p (suc i) count selected = elim (ltb count max_context_events) [
    | false ↦ selected
    | true ↦ elim (holds_at p i) [
      | true ↦ add_context p i (count + 1) (i ∷ selected)
      | false ↦ add_context p i count selected
    ]
  ]

  abbrev pub context_of : ℕ → QueueEntry → List ℕ → List ℕ
  context_of i urgent selected = elim (session_id urgent.event) [
    | none ↦ selected
    | some session ↦ elim (page_id urgent.event) [
      | none ↦ selected
      | some page ↦ add_context (is_context session page urgent.event) i 0 selected
    ]
  ]

  -- The loop over the urgent indices.
  unfoldable pub add_contexts : List ℕ → List ℕ → List ℕ
  add_contexts [] selected = selected
  add_contexts (i ∷ urgent) selected =
      add_contexts urgent
        (elim (get_elem? events i) [ none ↦ selected | some e ↦ context_of i e selected ])

  unfoldable pub select_immediate : List ℕ
  select_immediate =
      let urgent = indices_where (λ e. is_immediate e.priority) 0 events in
      let selected = add_contexts urgent urgent in
      selected_where selected (λ e. is_immediate e.priority) 0 events
      ++ selected_where selected (λ e. is_batch e.priority) 0 events
