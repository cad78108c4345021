-- ===== src/Browser/Lifecycle/Calls.antt =====
-- The methods of SessionPageLifecycle, packages/browser/src/lifecycle.ts.
use spectro.Prelude.{
  ℕ, ◌-◌, Bool, true, false, not, ◌&&◌, ◌||◌, Option, none, some, List, [], ◌∷◌, ◌++◌, ltb, leb,
  if◌then◌else◌, length, filter, or_else, Text, text_eq,
}
use mathlib.Core.Option
use spectro.Protocol.Context.{PageContext}
use spectro.Browser.Lifecycle.Pages.{UrlParts, create_page_context, sanitize_page_url}
use spectro.Browser.Lifecycle.{
  activity_persist_interval_ms, max_page_context_history, is_after, elapsed, StoredSession,
  StoredValue, stored_session, NavigationContext, Subscription, Effect, Lifecycle, SessionJson,
  LifecycleOptions, Moment, pos, session_start, page_view, route_change, navigation, activity,
  updates_context, captures, writes, unsubscribes,
}

abbrev pub context : StoredSession → PageContext → NavigationContext
context s p = record { session_id = s.id; started_at = s.started_at; page = p }

abbrev pub emit : Effect → Lifecycle → Lifecycle
emit e l = record l { effects = e ∷ l.effects }

-- `map.delete(url)`, `map.get(url)` and `map.set(url, value)`
abbrev pub without : Text → List (Text × NavigationContext) → List (Text × NavigationContext)
without url entries = filter (λ e. not (text_eq e.0 url)) entries

abbrev pub lookup : Text → List (Text × NavigationContext) → Option NavigationContext
lookup url [] = none
lookup url (e ∷ es) = let rest = lookup url es in if text_eq e.0 url then some e.1 else rest

abbrev pub put_context :
    Text → NavigationContext → List (Text × NavigationContext) → List (Text × NavigationContext)
put_context url c [] = (url, c) ∷ []
put_context url c (e ∷ es) =
    let rest = put_context url c es in if text_eq e.0 url then (url, c) ∷ es else e ∷ rest

-- The `while` loop of `#applyContext`.
unfoldable pub forget_oldest : List (Text × NavigationContext) → List (Text × NavigationContext)
forget_oldest [] = []
forget_oldest (e ∷ es) =
    let rest = forget_oldest es in
    if ltb max_page_context_history (length (e ∷ es)) then rest else e ∷ es

abbrev pub apply_context : Option StoredSession → Option PageContext → Lifecycle → Lifecycle
apply_context (some s) (some p) l = record l {
  effects = updates_context (context s p) ∷ l.effects;
  contexts = forget_oldest (put_context p.url (context s p) (without p.url l.contexts));
}
apply_context _ _ l = l

unfoldable pub is_expired : LifecycleOptions → StoredSession → (now : ℕ) → Bool
is_expired setting s now =
    is_after s.started_at now
    || is_after s.last_activity_at now
    || leb setting.session_timeout_ms (elapsed now s.last_activity_at)

abbrev pub new_session : Moment → StoredSession
new_session m = record { id = m.session_id; started_at = pos m.now; last_activity_at = pos m.now }

abbrev pub active : ℕ → StoredSession → StoredSession
active now s = record s { last_activity_at = pos now }

module _ (parse_url : Text → Option UrlParts) (trim : Text → Text) (json : SessionJson)
    (config : LifecycleOptions) where
  abbrev pub read_page : Moment → PageContext
  read_page m = create_page_context parse_url trim m.snapshot m.page_id

  abbrev pub alive : ℕ → Option StoredSession → Option StoredSession
  alive now none = none
  alive now (some s) = if is_expired config s now then none else some s

  abbrev pub parsed : Option StoredValue → Option StoredSession
  parsed none = none
  parsed (some v) = stored_session v

  abbrev pub item : Option Text → Option StoredValue
  item none = none
  item (some stored) = json.parse stored

  unfoldable pub read_stored_session : Moment → Option StoredSession
  read_stored_session m = alive m.now (parsed (item m.stored))

  abbrev pub persist_item : StoredSession → Moment → Lifecycle → Lifecycle
  persist_item s m l =
      if m.writable
      then record l { effects = writes (json.stringify s) ∷ l.effects; last_persisted_at = m.later }
      else l

  abbrev pub persist_session :
      Option StoredSession → (force : Bool) → Moment → Lifecycle → Lifecycle
  persist_session none force m l = l
  persist_session (some s) force m l =
      if not force && ltb (m.later - l.last_persisted_at) activity_persist_interval_ms
      then l
      else persist_item s m l

  -- The session and the page are set, applied and persisted.
  unfoldable pub enter : StoredSession → PageContext → Moment → Lifecycle → Lifecycle
  enter s p m l =
      persist_session (some s) true m
        (apply_context (some s) (some p) (record l { session = some s; page = some p }))

  abbrev pub capture_start : Option StoredSession → Moment → Lifecycle → Lifecycle
  capture_start none m l = emit (captures session_start m.now) l
  capture_start (some s) m l = l

  -- `start` of a lifecycle that has not started, with the session that is stored.
  unfoldable pub start_session : Option StoredSession → Moment → Lifecycle → Lifecycle
  start_session existing m l =
      let s = active m.now (or_else existing (new_session m)) in
      let entered = enter s (read_page m) m (record l { started = true }) in
      let captured = emit (captures page_view m.now) (capture_start existing m entered) in
      record captured { cleanups = captured.cleanups ++ navigation ∷ activity ∷ [] }

  unfoldable pub start : Moment → Lifecycle → Lifecycle
  start m l = if l.started then l else start_session (read_stored_session m) m l

  -- `touch` of a started lifecycle that has a session.
  unfoldable pub touch_session : StoredSession → Moment → Lifecycle → Lifecycle
  touch_session s m l =
      if is_expired config s m.now
      then emit (captures page_view m.now)
          (emit (captures session_start m.now) (enter (new_session m) (read_page m) m l))
      else (let touched = active m.now s in
          persist_session (some touched) false m (record l { session = some touched }))

  abbrev pub touch_if : Bool → Option StoredSession → Moment → Lifecycle → Lifecycle
  touch_if true (some s) m l = touch_session s m l
  touch_if _ _ m l = l

  unfoldable pub touch : Moment → Lifecycle → Lifecycle
  touch m l = touch_if l.started l.session m l

  -- The route changes from page `p`.
  unfoldable pub change_route : StoredSession → PageContext → Moment → Lifecycle → Lifecycle
  change_route s p m l =
      let next = read_page m in
      let changed = captures (route_change p.url next.url) m.now in
      if is_expired config s m.now
      then emit changed (emit (captures session_start m.now) (enter (new_session m) next m l))
      else emit changed (enter (active m.now s) next m l)

  -- `again` is what the call of `touch` reads.
  abbrev pub navigate_from :
      Bool → Option StoredSession → Option PageContext → (m again : Moment) → Lifecycle → Lifecycle
  navigate_from true (some s) (some p) m again l =
      if text_eq (read_page m).url p.url then touch again l else change_route s p m l
  navigate_from _ _ _ m again l = l

  unfoldable pub handle_navigation : (m again : Moment) → Lifecycle → Lifecycle
  handle_navigation m again l = navigate_from l.started l.session l.page m again l

  abbrev pub lookup_sanitized :
      Option Text → List (Text × NavigationContext) → Option NavigationContext
  lookup_sanitized none entries = none
  lookup_sanitized (some url) entries = lookup url entries

  abbrev pub current : Option StoredSession → Option PageContext → Option NavigationContext
  current (some s) (some p) = some (context s p)
  current _ _ = none

  unfoldable pub context_for_navigation_url : Option Text → Lifecycle → Option NavigationContext
  context_for_navigation_url none l = current l.session l.page
  context_for_navigation_url (some raw) l =
      lookup_sanitized (Option.map (λ r. r.0) (sanitize_page_url parse_url raw)) l.contexts

abbrev pub unsubscribe_all : List Subscription → List Effect → List Effect
unsubscribe_all [] effects = effects
unsubscribe_all (c ∷ cs) effects = unsubscribes c ∷ unsubscribe_all cs effects

-- The subscriptions end from the last on, so that the latest effect is the end of the first.
unfoldable pub stop : Lifecycle → Lifecycle
stop l = record l { effects = unsubscribe_all l.cleanups l.effects; cleanups = []; started = false }
