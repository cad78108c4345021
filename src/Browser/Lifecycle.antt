-- ===== src/Browser/Lifecycle.antt =====
-- packages/browser/src/lifecycle.ts: the session and the page of the browser SDK.
-- What the environment answers during one call stands in a `Moment`. The host's functions, the
-- runtime's but those of the storage, and the factory of identifiers are taken not to throw.
pub mod Pages
pub mod Calls
pub mod Sanitize
pub mod Session
pub mod Navigation
pub mod Resume
pub mod Entries
pub mod History
use spectro.Prelude.{
  ℕ, zero, suc, ◌+◌, ◌-◌, Bool, true, false, not, ◌&&◌, ◌||◌, Option, none, some, List, [], ◌∷◌,
  ◌++◌, ltb, leb, ◌==◌, if◌then◌else◌, length, filter, find, or_else, Text, text, text_eq,
}
use mathlib.Core.Option
use spectro.Protocol.Context.{PageContext}
use Pages.{RawPageSnapshot, UrlParts, create_page_context, sanitize_page_url}

abbrev pub default_session_timeout_ms : ℕ
default_session_timeout_ms = 1800000

abbrev pub activity_persist_interval_ms : ℕ
activity_persist_interval_ms = 60000

abbrev pub max_page_context_history : ℕ
max_page_context_history = 32

-- A safe integer of the storage may be negative.
pub data ℤ : Type 0 where
  pos : ℕ → ℤ
  negsuc : ℕ → ℤ

-- `t > now`
abbrev pub is_after : ℤ → ℕ → Bool
is_after (pos n) now = ltb now n
is_after (negsuc n) now = false

-- `now - t`, where `t` is not after `now`
abbrev pub elapsed : ℕ → ℤ → ℕ
elapsed now (pos n) = now - n
elapsed now (negsuc n) = now + suc n

pub record StoredSession : Type 0 where
  pub id : Text
  pub started_at : ℤ
  pub last_activity_at : ℤ

-- The three fields of a parsed object: `none` is no string, and no safe integer.
pub record StoredValue : Type 0 where
  pub id : Option Text
  pub started_at : Option ℤ
  pub last_activity_at : Option ℤ

-- `isStoredSession`, with the session that the value is then.
abbrev session_of : Option Text → Option ℤ → Option ℤ → Option StoredSession
session_of (some id) (some started_at) (some last_activity_at) =
    if ltb 0 (length id) && leb (length id) 128
    then some (record { id = id; started_at = started_at; last_activity_at = last_activity_at })
    else none
session_of _ _ _ = none

unfoldable pub stored_session : StoredValue → Option StoredSession
stored_session v = session_of v.id v.started_at v.last_activity_at

-- The context of `#applyContext` and `contextForNavigationUrl`.
pub record NavigationContext : Type 0 where
  pub session_id : Text
  pub started_at : ℤ
  pub page : PageContext

pub data LifecycleEvent : Type 0 where
  session_start page_view : LifecycleEvent
  route_change : (from to : Text) → LifecycleEvent

pub data Subscription : Type 0 where
  navigation activity : Subscription

pub data Effect : Type 0 where
  updates_context : NavigationContext → Effect
  captures : LifecycleEvent → (timestamp : ℕ) → Effect
  writes : (item : Text) → Effect
  unsubscribes : Subscription → Effect

-- `contexts` is `#contextsByUrl` in the order of insertion. The latest effect is the first.
pub record Lifecycle : Type 0 where
  pub session : Option StoredSession
  pub page : Option PageContext
  pub last_persisted_at : ℕ
  pub started : Bool
  pub contexts : List (Text × NavigationContext)
  pub cleanups : List Subscription
  pub effects : List Effect

-- `JSON.parse` and `JSON.stringify` on sessions; `none` is an error or no object.
pub record SessionJson : Type 0 where
  pub parse : Text → Option StoredValue
  pub stringify : StoredSession → Text

pub record LifecycleOptions : Type 0 where
  pub storage_key : Text
  pub session_timeout_ms : ℕ

-- The constructor; a timeout that is not positive is refused.
unfoldable pub lifecycle_options :
    (project environment : Text) → (timeout : Option ℕ) → Option LifecycleOptions
lifecycle_options project environment timeout =
    let ms = or_else timeout default_session_timeout_ms in
    if ltb 0 ms
    then some (record {
      storage_key = text "spectro.session.v1:" ++ project ++ text ":" ++ environment;
      session_timeout_ms = ms;
    })
    else none

-- What a call reads: `now` and `later` are the clock's answers to the call and to
-- `#persistSession`, `stored` that of the storage, where `none` is no item or an error.
pub record Moment : Type 0 where
  pub now : ℕ
  pub later : ℕ
  pub stored : Option Text
  pub writable : Bool
  pub session_id : Text
  pub page_id : Text
  pub snapshot : RawPageSnapshot
