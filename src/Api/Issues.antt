-- ===== src/Api/Issues.antt =====
-- apps/api/src/postgres-issue-lifecycle.ts: the status of an issue and its history. The tables are
-- lists of rows, and a transaction is one function; its clock is `now()`, the start of it.
pub mod Timeline
pub mod History
use spectro.Prelude.{
  ℕ, suc, Bool, true, false, ◌&&◌, ◌||◌, Option, none, some, List, [], ◌∷◌, ltb, ◌==◌,
  if◌then◌else◌, filter, find, any, take, Text, text_eq,
}

pub data IssueStatus : Type 0 where
  open_ resolved ignored : IssueStatus

abbrev pub status_eq : IssueStatus → IssueStatus → Bool
status_eq open_ open_ = true
status_eq resolved resolved = true
status_eq ignored ignored = true
status_eq _ _ = false

-- The primary key of `issue_lifecycle`.
pub record Issue : Type 0 where
  pub project_id : Text
  pub environment : Text
  pub fingerprint : Text

unfoldable pub same_issue : Issue → Issue → Bool
same_issue i j =
    text_eq i.project_id j.project_id
    && text_eq i.environment j.environment
    && text_eq i.fingerprint j.fingerprint

-- A row of `issue_lifecycle`.
pub record LifecycleRow : Type 0 where
  pub issue : Issue
  pub status : IssueStatus
  pub updated_at : ℕ

-- A row of `issue_lifecycle_history`.
pub record HistoryRow : Type 0 where
  pub id : ℕ
  pub issue : Issue
  pub previous_status : Option IssueStatus
  pub status : IssueStatus
  pub actor_id : Option Text
  pub changed_at : ℕ

-- The latest row of the history is the first; `next_id` is the identity column's next value.
pub record IssueStore : Type 0 where
  pub rows : List LifecycleRow
  pub entries : List HistoryRow
  pub next_id : ℕ

pub record Change : Type 0 where
  pub issue : Issue
  pub status : IssueStatus
  pub actor_id : Option Text
  pub now : ℕ

abbrev pub find_row : Issue → List LifecycleRow → Option LifecycleRow
find_row i [] = none
find_row i (r ∷ rs) = let rest = find_row i rs in if same_issue r.issue i then some r else rest

-- `INSERT … ON CONFLICT … DO UPDATE`
abbrev pub upsert : LifecycleRow → List LifecycleRow → List LifecycleRow
upsert r [] = r ∷ []
upsert r (s ∷ ss) =
    let rest = upsert r ss in if same_issue s.issue r.issue then r ∷ ss else s ∷ rest

abbrev pub status_of : Option LifecycleRow → Option IssueStatus
status_of none = none
status_of (some r) = some r.status

abbrev pub updated_row : Change → LifecycleRow
updated_row c = record { issue = c.issue; status = c.status; updated_at = c.now }

abbrev pub history_row : ℕ → Option IssueStatus → Change → HistoryRow
history_row id previous c = record {
  id = id;
  issue = c.issue;
  previous_status = previous;
  status = c.status;
  actor_id = c.actor_id;
  changed_at = c.now;
}

-- The two statements for a status that is new.
abbrev pub write_status : Option LifecycleRow → Change → IssueStore → LifecycleRow × IssueStore
write_status previous c store = (
  updated_row c,
  record {
    rows = upsert (updated_row c) store.rows;
    entries = history_row store.next_id (status_of previous) c ∷ store.entries;
    next_id = suc store.next_id;
  },
)

abbrev pub set_from : Option LifecycleRow → Change → IssueStore → LifecycleRow × IssueStore
set_from none c store = write_status none c store
set_from (some r) c store =
    if status_eq r.status c.status then (r, store) else write_status (some r) c store

unfoldable pub set : Change → IssueStore → LifecycleRow × IssueStore
set c store = set_from (find_row c.issue store.rows) c store

-- The rows of the map that `getMany` returns.
unfoldable pub get_many :
    (project_id environment : Text) → (fingerprints : List Text) → IssueStore → List LifecycleRow
get_many p e fingerprints store =
    filter
      (λ r.
        text_eq r.issue.project_id p
        && text_eq r.issue.environment e
        && any (text_eq r.issue.fingerprint) fingerprints)
      store.rows

-- `ORDER BY changed_at DESC, id DESC`: whether the first row stands before the second.
abbrev pub is_later : HistoryRow → HistoryRow → Bool
is_later a b = ltb b.changed_at a.changed_at || (a.changed_at == b.changed_at && ltb b.id a.id)

abbrev pub place : HistoryRow → List HistoryRow → List HistoryRow
place e [] = e ∷ []
place e (f ∷ fs) = let rest = place e fs in if is_later f e then f ∷ rest else e ∷ f ∷ fs

abbrev pub by_time : List HistoryRow → List HistoryRow
by_time [] = []
by_time (e ∷ es) = place e (by_time es)

unfoldable pub history : Issue → (limit : ℕ) → IssueStore → List HistoryRow
history i limit store = take limit (by_time (filter (λ e. same_issue e.issue i) store.entries))
