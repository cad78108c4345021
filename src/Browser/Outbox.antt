-- ===== src/Browser/Outbox.antt =====
-- packages/browser/src/outbox.ts: the durable queue of a scope. The object store is the list of its
-- records, and a transaction runs alone; the IndexedDB calls that open and await it are the platform's.
-- A scope is the text of its key. Where IndexedDB lists records by key, the model lists them in the
-- order in which they were put, which only shows among records of one time. The attempts of a stored
-- record are a natural number, so that the tests of `load` that they are an integer and not negative
-- hold and are left out.
pub mod Bounds
pub mod Order
use spectro.Prelude.{
  ℕ, ◌+◌, ◌-◌, Bool, true, false, not, ◌&&◌, ◌||◌, Option, none, some, List, [], ◌∷◌, ◌++◌, map,
  reverse, ltb, leb, ◌==◌, if◌then◌else◌, length, filter, find, any, is_some, or_else, Text, text,
  text_eq,
}
use spectro.Protocol.Event.{
  SpectroEvent, ByteLength, DeliveryPriority, is_immediate, QueuedEventRecord,
}

abbrev pub default_max_events : ℕ
default_max_events = 100

abbrev pub default_max_bytes : ℕ
default_max_bytes = 1048576

abbrev pub default_ttl_ms : ℕ
default_ttl_ms = 86400000

abbrev pub max_attempts : ℕ
max_attempts = 8

pub record StoredEvent : Type 0 where
  pub queued : QueuedEventRecord
  pub open queued use *
  pub key : Text
  pub scope : Text
  pub stored_at : ℕ
  pub bytes : ℕ

-- The limits of an `IndexedDbEventOutbox`.
pub record Limits : Type 0 where
  pub max_events : ℕ
  pub max_bytes : ℕ
  pub ttl_ms : ℕ

abbrev min : ℕ → ℕ → ℕ
min a b = if leb a b then a else b

-- `none` is the error; a requested value that is no natural number is refused like 0.
unfoldable pub bounded_limit : (value : Option ℕ) → (fallback maximum : ℕ) → Option ℕ
bounded_limit value fallback maximum =
    let requested = or_else value fallback in
    if ltb requested 1 then none else some (min requested maximum)

-- The `while` loop and the `splice` of `ordered`: the value goes before the first greater one.
abbrev pub insert {ℓ} : {A : Type ℓ} → (A → ℕ) → A → List A → List A
insert rank v [] = v ∷ []
insert rank v (w ∷ ws) =
    let rest = insert rank v ws in if ltb (rank v) (rank w) then v ∷ w ∷ ws else w ∷ rest

-- `ordered`, for a comparison by `rank`.
abbrev pub ordered_from {ℓ} : {A : Type ℓ} → (A → ℕ) → List A → List A → List A
ordered_from rank result [] = result
ordered_from rank result (v ∷ vs) = ordered_from rank (insert rank v result) vs

unfoldable pub ordered {ℓ} : {A : Type ℓ} → (A → ℕ) → List A → List A
ordered rank vs = ordered_from rank [] vs

abbrev pub is_in_scope : Text → StoredEvent → Bool
is_in_scope scope r = text_eq r.scope scope

abbrev pub has_key : Text → List StoredEvent → Bool
has_key key rs = any (λ r. text_eq r.key key) rs

-- `store.delete(record.key)` for each record of the scope whose key is not among `kept`.
abbrev pub delete_others :
    (scope : Text) → (kept : List StoredEvent) → List StoredEvent → List StoredEvent
delete_others scope kept store = filter (λ r. not (is_in_scope scope r) || has_key r.key kept) store

abbrev delete : Text → List StoredEvent → List StoredEvent
delete key store = filter (λ r. not (text_eq r.key key)) store

abbrev delete_all : List Text → List StoredEvent → List StoredEvent
delete_all [] store = store
delete_all (k ∷ ks) store = delete_all ks (delete k store)

-- `store.put(record)`, and `byKey.set(key, record)`: a record of the same key is replaced in its
-- place.
abbrev pub put : StoredEvent → List StoredEvent → List StoredEvent
put r [] = r ∷ []
put r (s ∷ store) = let rest = put r store in if text_eq s.key r.key then r ∷ store else s ∷ rest

abbrev pub put_all : List StoredEvent → List StoredEvent → List StoredEvent
put_all [] store = store
put_all (r ∷ rs) store = put_all rs (put r store)

module _ (limits : Limits) where
  abbrev pub is_alive : (now : ℕ) → StoredEvent → Bool
  is_alive now r = ltb now (r.stored_at + limits.ttl_ms) && ltb r.attempts max_attempts

  -- `load`: the records of the scope that are left, in the order of their events' times.
  unfoldable pub load :
      (scope : Text) → (now : ℕ) → List StoredEvent → List QueuedEventRecord × List StoredEvent
  load scope now store =
      let records = filter (is_in_scope scope) store in
      let valid = filter (λ r. is_immediate r.priority && is_alive now r) records in
      (
        map (λ r. r.queued) (ordered (λ r. r.event.timestamp) valid),
        delete_others scope valid store,
      )

  abbrev stored_at_of : Option StoredEvent → ℕ → ℕ
  stored_at_of none now = now
  stored_at_of (some r) now = r.stored_at

  module _ (bytes : ByteLength) where
    abbrev record_key : (scope : Text) → QueuedEventRecord → Text
    record_key scope r = scope ++ text ":" ++ r.event.id

    abbrev stored_event :
        (scope : Text) → (now : ℕ) → QueuedEventRecord → List StoredEvent → StoredEvent
    stored_event scope now r by_key = record {
      queued = r;
      key = record_key scope r;
      scope = scope;
      stored_at = stored_at_of (find (λ s. text_eq s.key (record_key scope r)) by_key) now;
      bytes = bytes.event r.event;
    }

    -- The loop over the records to save.
    abbrev merge :
        (scope : Text) → (now : ℕ) → List QueuedEventRecord → List StoredEvent → List StoredEvent
    merge scope now [] by_key = by_key
    merge scope now (r ∷ rs) by_key =
        merge scope now rs (put (stored_event scope now r by_key) by_key)

    -- The loop over the candidates from the last on.
    unfoldable pub retain :
        List StoredEvent → (retained : List StoredEvent) → (retained_bytes : ℕ) → List StoredEvent
    retain [] retained total = retained
    retain (r ∷ rs) retained total =
        elim (leb limits.max_events (length retained) || ltb limits.max_bytes (total + r.bytes)) [
          | true ↦ retain rs retained total
          | false ↦ retain rs (retained ++ r ∷ []) (total + r.bytes)
        ]

    abbrev pub save_candidates :
        (scope : Text) → (now : ℕ) → List QueuedEventRecord → List StoredEvent → List StoredEvent
    save_candidates scope now records store =
        ordered (λ r. r.stored_at)
          (filter (is_alive now) (merge scope now records (filter (is_in_scope scope) store)))

    -- `save`: the number of records that found no room, and the store.
    unfoldable pub save :
        (scope : Text)
        → (now : ℕ) → List QueuedEventRecord
        → List StoredEvent
        → ℕ × List StoredEvent
    save scope now [] store = (0, store)
    save scope now (r ∷ rs) store =
        let candidates = save_candidates scope now (r ∷ rs) store in
        let retained = retain (reverse candidates) [] 0 in
        (length candidates - length retained, put_all retained (delete_others scope retained store))

    unfoldable pub remove :
        (scope : Text) → (event_ids : List Text) → List StoredEvent → List StoredEvent
    remove scope ids store = delete_all (map (λ id. scope ++ text ":" ++ id) ids) store
