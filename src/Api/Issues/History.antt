-- ===== src/Api/Issues/History.antt =====
-- The order of the history that apps/api/src/postgres-issue-lifecycle.ts returns.
use spectro.Prelude.{
  ℕ, suc, ◌≤◌, ◌<◌, ◌≡◌, refl, ap, ◌∙◌, false, Option, none, some, List, [], ◌∷◌, filter, take, All,
  All-map, arith, Bool-cases, inl, inr,
}
use spectro.Api.Issues.{
  Issue, same_issue, LifecycleRow, HistoryRow, IssueStore, Change, find_row, status_eq,
  write_status, set_from, set, is_later, place, by_time, history,
}
use spectro.Api.Issues.Timeline.{log}

-- The stores that changes make one after another, none of which starts before an earlier one; the
-- number is the start of the last.
pub data Serial : ℕ → IssueStore → Type 0 where
  begin : Serial 0 (record { rows = []; entries = []; next_id = 1 })
  then_sets :
      {t : ℕ} {store : IssueStore} (c : Change)
      → Serial t store
      → t ≤ c.now
      → Serial c.now (set c store).1

-- Written by `now`, with an identifier below `next`.
abbrev IsPast : (now next : ℕ) → HistoryRow → Type 0
IsPast now next e = (e.changed_at ≤ now) × (e.id < next)

abbrev IsDescending : List HistoryRow → Type 0
IsDescending [] = Unit
IsDescending (e ∷ es) = All (λ f. is_later f e ≡ false) es × IsDescending es

abbrev IsRecorded : ℕ → IssueStore → Type 0
IsRecorded now store = All (IsPast now store.next_id) store.entries × IsDescending store.entries

write_status-IsRecorded :
    (o : Option LifecycleRow) (c : Change) (now : ℕ) (store : IssueStore)
    → now ≤ c.now
    → IsRecorded now store
    → IsRecorded c.now (write_status o c store).1
write_status-IsRecorded o c now store later (past, down) = (
  (
    (omega arith, omega arith),
    All-map (IsPast now store.next_id) (IsPast c.now (suc store.next_id)) store.entries
        (λ e (p, q). (omega arith, omega arith)) past,
  ),
  (All-map (IsPast now store.next_id) _ store.entries (λ e (p, q). ground arith) past, down),
)

set_from-IsRecorded :
    (o : Option LifecycleRow) (c : Change) (now : ℕ) (store : IssueStore)
    → now ≤ c.now
    → IsRecorded now store
    → IsRecorded c.now (set_from o c store).1
set_from-IsRecorded none c now store later h = write_status-IsRecorded none c now store later h
set_from-IsRecorded (some r) c now store later h = elim (Bool-cases (status_eq r.status c.status)) [
  | inl same ↦
      rw (same, set_from)
        (
          All-map (IsPast now store.next_id) (IsPast c.now store.next_id) store.entries
              (λ e (p, q). (omega arith, q)) h.0,
          h.1,
        )
  | inr new ↦ rw (new, set_from) (write_status-IsRecorded (some r) c now store later h)
]

Serial-IsRecorded : {t : ℕ} {store : IssueStore} → Serial t store → IsRecorded t store
unfolding set
Serial-IsRecorded begin = (tt, tt)
Serial-IsRecorded (then_sets {t} {store} c s later) =
    set_from-IsRecorded (find_row c.issue store.rows) c t store later (Serial-IsRecorded s)

All-log : (P : HistoryRow → Type 0) (i : Issue) (es : List HistoryRow) → All P es → All P (log i es)
All-log P i [] h = tt
All-log P i (e ∷ es) (p, h) = elim (Bool-cases (same_issue e.issue i)) [
  | inl same ↦ rw (same, filter) (p, All-log P i es h)
  | inr other ↦ rw (other, filter) (All-log P i es h)
]

log-IsDescending : (i : Issue) (es : List HistoryRow) → IsDescending es → IsDescending (log i es)
log-IsDescending i [] h = tt
log-IsDescending i (e ∷ es) (p, h) = elim (Bool-cases (same_issue e.issue i)) [
  | inl same ↦ rw (same, filter) (All-log _ i es p, log-IsDescending i es h)
  | inr other ↦ rw (other, filter) (log-IsDescending i es h)
]

by_time-IsDescending : (es : List HistoryRow) → IsDescending es → by_time es ≡ es
by_time-IsDescending [] h = refl
by_time-IsDescending (e ∷ []) h = refl
by_time-IsDescending (e ∷ f ∷ fs) ((p, q), h) =
    ap (place e) (by_time-IsDescending (f ∷ fs) h) ∙ rw (p, place) refl

-- If no transaction starts before an earlier one, the history of an issue is its latest changes, as
-- many as are asked for, in the order in which they were made, the last first.
pub history_lem :
    (t : ℕ) (store : IssueStore) (i : Issue) (limit : ℕ)
    → Serial t store
    → history i limit store ≡ take limit (log i store.entries)
unfolding history
history_lem t store i limit s = ap (take limit) (
    by_time-IsDescending (log i store.entries)
      (log-IsDescending i store.entries (Serial-IsRecorded s).1))
