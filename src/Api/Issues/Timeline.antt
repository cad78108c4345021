-- ===== src/Api/Issues/Timeline.antt =====
-- The rows and the history of apps/api/src/postgres-issue-lifecycle.ts as one timeline per issue.
use spectro.Prelude.{
  ℕ, ◌≡◌, refl, sym, ap, subst, ◌∙◌, true, false, Option, none, some, List, [], ◌∷◌, map, filter,
  if◌then◌else◌, arith, Bool-cases, inl, inr, Text, text_eq_iff, text_eq_refl,
}
use mathlib.Core.Option.{some-injective}
use spectro.Api.Issues.{
  IssueStatus, status_eq, Issue, same_issue, LifecycleRow, HistoryRow, IssueStore, Change, find_row,
  upsert, status_of, updated_row, write_status, set_from, set,
}

pub same_issue_refl : (i : Issue) → same_issue i i ≡ true
unfolding same_issue
same_issue_refl i =
    rw (text_eq_refl i.project_id, text_eq_refl i.environment, text_eq_refl i.fingerprint) refl

pub same_issue→≡ : (i j : Issue) → same_issue i j ≡ true → i ≡ j
unfolding same_issue
same_issue→≡ i j h =
    let p = (text_eq_iff i.project_id j.project_id).0 (ground arith) in
    let e = (text_eq_iff i.environment j.environment).0 (ground arith) in
    let f = (text_eq_iff i.fingerprint j.fingerprint).0 (ground arith) in cc

status_eq→≡ : (s t : IssueStatus) → status_eq s t ≡ true → s ≡ t
status_eq→≡ s t h = ground arith

find_row-upsert :
    (r : LifecycleRow) (rows : List LifecycleRow) → find_row r.issue (upsert r rows) ≡ some r
find_row-upsert r [] = rw (same_issue_refl r.issue, find_row) refl
find_row-upsert r (s ∷ ss) = ground (arith, find_row-upsert r ss, same_issue_refl r.issue)

find_row-upsert_other :
    (i : Issue) (r : LifecycleRow) (rows : List LifecycleRow)
    → same_issue r.issue i ≡ false
    → find_row i (upsert r rows) ≡ find_row i rows
find_row-upsert_other i r [] other = rw (other, find_row) refl
find_row-upsert_other i r (s ∷ ss) other = elim (Bool-cases (same_issue s.issue r.issue)) [
  | inl same ↦
      let skipped : same_issue s.issue i ≡ false =
        ap (λ k. same_issue k i) (same_issue→≡ s.issue r.issue same) ∙ other in
      ground arith
  | inr not_same ↦ ground (arith, find_row-upsert_other i r ss)
]

-- The rows of an issue's history, the latest first.
abbrev pub log : Issue → List HistoryRow → List HistoryRow
log i es = filter (λ e. same_issue e.issue i) es

abbrev pub last_status : List HistoryRow → Option IssueStatus
last_status [] = none
last_status (e ∷ es) = some e.status

-- Each row holds the status before it.
abbrev pub IsChained : List HistoryRow → Type 0
IsChained [] = Unit
IsChained (e ∷ es) = (e.previous_status ≡ last_status es) × IsChained es

abbrev pub Agrees : IssueStore → Issue → Type 0
Agrees store i =
    (status_of (find_row i store.rows) ≡ last_status (log i store.entries))
    × IsChained (log i store.entries)

write_status-Agrees :
    (c : Change) (store : IssueStore) (i : Issue)
    → Agrees store c.issue
    → Agrees store i
    → Agrees (write_status (find_row c.issue store.rows) c store).1 i
write_status-Agrees c store i (h, k) (hi, ki) = elim (Bool-cases (same_issue c.issue i)) [
  | inl same ↦
      subst (Agrees (write_status (find_row c.issue store.rows) c store).1)
        (same_issue→≡ c.issue i same)
        (rw (find_row-upsert (updated_row c) store.rows, same_issue_refl c.issue, filter)
          (refl, (h, k)))
  | inr other ↦
      rw (find_row-upsert_other i (updated_row c) store.rows other, other, filter) (hi, ki)
]

-- The stores that changes make of an empty one, in the order in which the transactions are taken.
pub data Reach : IssueStore → Type 0 where
  empty : Reach (record { rows = []; entries = []; next_id = 1 })
  sets : {store : IssueStore} (c : Change) → Reach store → Reach (set c store).1

set_from-Agrees :
    (o : Option LifecycleRow) (c : Change) (store : IssueStore) (i : Issue)
    → find_row c.issue store.rows ≡ o
    → Agrees store c.issue
    → Agrees store i
    → Agrees (set_from o c store).1 i
set_from-Agrees none c store i found h hi =
    subst (λ o. Agrees (write_status o c store).1 i) found (write_status-Agrees c store i h hi)
set_from-Agrees (some r) c store i found h hi = elim (Bool-cases (status_eq r.status c.status)) [
  | inl same ↦ rw (same, set_from) hi
  | inr new ↦
      rw (new, set_from)
        (subst (λ o. Agrees (write_status o c store).1 i) found
          (write_status-Agrees c store i h hi))
]

pub Reach-Agrees : {store : IssueStore} → Reach store → (i : Issue) → Agrees store i
unfolding set
Reach-Agrees empty i = (refl, tt)
Reach-Agrees (sets {store} c r) i =
    set_from-Agrees (find_row c.issue store.rows) c store i refl (Reach-Agrees r c.issue)
      (Reach-Agrees r i)

-- The specification: the changes of one issue with who made them and when, the latest first. A change
-- to the status that it has already is none.
abbrev pub Timeline : Type 0
Timeline = List (IssueStatus × Option Text × ℕ)

abbrev pub current : Timeline → Option IssueStatus
current [] = none
current (e ∷ es) = some e.0

abbrev pub record_change : Change → Timeline → Timeline
record_change c [] = (c.status, c.actor_id, c.now) ∷ []
record_change c (e ∷ es) =
    if status_eq e.0 c.status then e ∷ es else (c.status, c.actor_id, c.now) ∷ e ∷ es

abbrev pub timeline : IssueStore → Issue → Timeline
timeline store i = map (λ e. (e.status, e.actor_id, e.changed_at)) (log i store.entries)

current-timeline :
    (es : List HistoryRow)
    → current (map (λ e. (e.status, e.actor_id, e.changed_at)) es) ≡ last_status es
current-timeline [] = refl
current-timeline (e ∷ es) = refl

record_change-new :
    (c : Change) (es : Timeline) (o : Option LifecycleRow)
    → status_of o ≡ current es
    → ((r : LifecycleRow) → o ≡ some r → status_eq r.status c.status ≡ false)
    → record_change c es ≡ (c.status, c.actor_id, c.now) ∷ es
record_change-new c [] o h new = refl
record_change-new c (e ∷ es) none h new = cc
record_change-new c (e ∷ es) (some r) h new =
    let differs : status_eq e.0 c.status ≡ false =
      ap (λ s. status_eq s c.status) (sym (some-injective r.status e.0 h)) ∙ new r refl in
    rw (differs, record_change) refl

record_change-same :
    (c : Change) (es : Timeline) (r : LifecycleRow)
    → some r.status ≡ current es
    → status_eq r.status c.status ≡ true
    → record_change c es ≡ es
record_change-same c [] r h same = cc
record_change-same c (e ∷ es) r h same =
    let kept : status_eq e.0 c.status ≡ true =
      ap (λ s. status_eq s c.status) (sym (some-injective r.status e.0 h)) ∙ same in
    rw (kept, record_change) refl

-- What a change does to every timeline, and what it returns.
abbrev pub Refines : Change → IssueStore → LifecycleRow × IssueStore → Type 0
Refines c store r =
    (timeline r.1 c.issue ≡ record_change c (timeline store c.issue))
    × ((i : Issue) → same_issue c.issue i ≡ false → timeline r.1 i ≡ timeline store i)
    × (r.0.status ≡ c.status)
    × (find_row c.issue r.1.rows ≡ some r.0)

write_status-Refines :
    (o : Option LifecycleRow) (c : Change) (store : IssueStore)
    → status_of o ≡ current (timeline store c.issue)
    → ((r : LifecycleRow) → o ≡ some r → status_eq r.status c.status ≡ false)
    → Refines c store (write_status o c store)
write_status-Refines o c store h new = (
  rw (same_issue_refl c.issue, filter) (sym (record_change-new c _ o h new)),
  λ i other. rw (other, filter) refl,
  refl,
  find_row-upsert (updated_row c) store.rows,
)

set_from-Refines :
    (o : Option LifecycleRow) (c : Change) (store : IssueStore)
    → find_row c.issue store.rows ≡ o
    → status_of o ≡ current (timeline store c.issue)
    → Refines c store (set_from o c store)
set_from-Refines none c store found h = write_status-Refines none c store h (λ r e. cc)
set_from-Refines (some r) c store found h = elim (Bool-cases (status_eq r.status c.status)) [
  | inl same ↦
      rw (same, set_from)
        (
          sym (record_change-same c _ r h same),
          λ i other. refl,
          status_eq→≡ r.status c.status same,
          found,
        )
  | inr new ↦
      rw (new, set_from)
        (write_status-Refines (some r) c store h
          (λ q e. ap (λ s. status_eq s.status c.status) (sym (some-injective r q e)) ∙ new))
]

-- In a store that changes have made, a change of an issue's status adds to its timeline what the
-- specification adds, leaves the timelines of the other issues, and returns the row of the issue, which
-- has the status that was asked for.
pub set_lem : (c : Change) (store : IssueStore) → Reach store → Refines c store (set c store)
unfolding set
set_lem c store reached =
    set_from-Refines (find_row c.issue store.rows) c store refl
      ((Reach-Agrees reached c.issue).0 ∙ sym (current-timeline (log c.issue store.entries)))
