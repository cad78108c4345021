-- ===== src/Browser/Lifecycle/History.antt =====
-- The page contexts that packages/browser/src/lifecycle.ts remembers, over any sequence of calls.
use mathlib.Core.Option.{some-injective}
use spectro.Prelude.{
  ℕ, ◌≤◌, ◌≡◌, refl, Bool, true, false, Option, none, some, [], ◌∷◌, length, if◌then◌else◌, All,
  All-append, arith, ap, subst, sym, ◌∙◌, Text,
}
use spectro.Protocol.Context.{PageContext}
use spectro.Browser.Lifecycle.Pages.{UrlParts, sanitize_page_url}
use spectro.Browser.Lifecycle.{
  Effect, StoredSession, NavigationContext, Lifecycle, LifecycleOptions, SessionJson, Moment,
  max_page_context_history,
}
use spectro.Browser.Lifecycle.Calls.{
  context, without, lookup, put_context, forget_oldest, apply_context, enter, start, start_session,
  touch, touch_session, change_route, handle_navigation, stop, persist_session, touch_if,
  navigate_from, is_expired, active, emit, capture_start, context_for_navigation_url, current,
}
use spectro.Browser.Lifecycle.Entries.{
  put_context-without, lookup-without, length-forget_oldest, lookup-forget_oldest,
  All-forget_oldest, All-without, Entries,
}

-- An entry stands under the URL of its page.
abbrev pub IsFiled : Text × NavigationContext → Type 0
IsFiled e = e.1.page.url ≡ e.0

-- Without a session there is no page, and the page's context is remembered under its URL.
abbrev pub HasCurrent : Option StoredSession → Option PageContext → Entries → Type 0
HasCurrent (some s) (some p) entries = lookup p.url entries ≡ some (context s p)
HasCurrent none none entries = entries ≡ []
HasCurrent _ _ entries = ⊥

pub record IsSound (l : Lifecycle) : Type 0 where
  pub bounded : length l.contexts ≤ max_page_context_history
  pub filed : All IsFiled l.contexts
  pub current : HasCurrent l.session l.page l.contexts

if-IsSound : (b : Bool) (x y : Lifecycle) → IsSound x → IsSound y → IsSound (if b then x else y)
if-IsSound true x y h k = h
if-IsSound false x y h k = k

-- The state that a new `SessionPageLifecycle` has.
abbrev pub initial : Lifecycle
initial = record {
  session = none;
  page = none;
  last_persisted_at = 0;
  started = false;
  contexts = [];
  cleanups = [];
  effects = [];
}

initial-IsSound : IsSound initial
initial-IsSound = record { bounded = omega arith; filed = tt; current = refl }

emit-IsSound : (e : Effect) (l : Lifecycle) → IsSound l → IsSound (emit e l)
emit-IsSound e l h = record { bounded = h.bounded; filed = h.filed; current = h.current }

stop-IsSound : (l : Lifecycle) → IsSound l → IsSound (stop l)
unfolding stop
stop-IsSound l h = record { bounded = h.bounded; filed = h.filed; current = h.current }

apply_context-IsSound :
    (s : StoredSession) (p : PageContext) (l : Lifecycle)
    → All IsFiled l.contexts
    → IsSound (apply_context (some s) (some p) (record l { session = some s; page = some p }))
apply_context-IsSound s p l h =
    let kept = without p.url l.contexts in
    let same = put_context-without p.url (context s p) l.contexts in
    record {
      bounded = length-forget_oldest (put_context p.url (context s p) kept);
      filed = All-forget_oldest IsFiled (put_context p.url (context s p) kept) (
          subst (All IsFiled) (sym same) (
            All-append IsFiled kept ((p.url, context s p) ∷ [])
              (All-without IsFiled p.url l.contexts h) (refl, tt)));
      current =
          ap (λ es. lookup p.url (forget_oldest es)) same
          ∙ lookup-forget_oldest p.url (context s p) kept (lookup-without p.url l.contexts);
    }

HasCurrent-active :
    (now : ℕ) (s : StoredSession) (page : Option PageContext) (es : Entries)
    → HasCurrent (some s) page es
    → HasCurrent (some (active now s)) page es
HasCurrent-active now s (some p) es h = h
HasCurrent-active now s none es h = absurd h

module _ (parse_url : Text → Option UrlParts) (trim : Text → Text) (json : SessionJson)
    (config : LifecycleOptions) where
  persist_session-IsSound :
      (o : Option StoredSession) (force : Bool) (m : Moment) (l : Lifecycle)
      → IsSound l
      → IsSound (persist_session parse_url trim json config o force m l)
  persist_session-IsSound none force m l h = h
  persist_session-IsSound (some s) force m l h = if-IsSound _ _ _ h (
      if-IsSound m.writable _ _
        (record { bounded = h.bounded; filed = h.filed; current = h.current }) h)

  enter-IsSound :
      (s : StoredSession) (p : PageContext) (m : Moment) (l : Lifecycle)
      → All IsFiled l.contexts
      → IsSound (enter parse_url trim json config s p m l)
  unfolding enter
  enter-IsSound s p m l h =
      persist_session-IsSound (some s) true m _ (apply_context-IsSound s p l h)

  capture_start-IsSound :
      (o : Option StoredSession) (m : Moment) (l : Lifecycle)
      → IsSound l
      → IsSound (capture_start parse_url trim json config o m l)
  capture_start-IsSound none m l h = emit-IsSound _ l h
  capture_start-IsSound (some s) m l h = h

  start_session-IsSound :
      (o : Option StoredSession) (m : Moment) (l : Lifecycle)
      → IsSound l
      → IsSound (start_session parse_url trim json config o m l)
  unfolding start_session
  start_session-IsSound o m l h =
      let captured =
        capture_start-IsSound o m _ (enter-IsSound _ _ m (record l { started = true }) h.filed) in
      record { bounded = captured.bounded; filed = captured.filed; current = captured.current }

  start-IsSound :
      (m : Moment) (l : Lifecycle) → IsSound l → IsSound (start parse_url trim json config m l)
  unfolding start
  start-IsSound m l h = if-IsSound l.started _ _ h (start_session-IsSound _ m l h)

  touch_session-IsSound :
      (s : StoredSession) (m : Moment) (l : Lifecycle)
      → l.session ≡ some s
      → IsSound l
      → IsSound (touch_session parse_url trim json config s m l)
  unfolding touch_session
  touch_session-IsSound s m l same h =
      if-IsSound (is_expired config s m.now) _ _
        (emit-IsSound _ _ (emit-IsSound _ _ (enter-IsSound _ _ m l h.filed)))
        (persist_session-IsSound (some (active m.now s)) false m
          (record l { session = some (active m.now s) })
          (record {
            bounded = h.bounded;
            filed = h.filed;
            current =
                HasCurrent-active m.now s l.page l.contexts
                  (subst (λ o. HasCurrent o l.page l.contexts) same h.current);
          }))

  touch_if-IsSound :
      (b : Bool) (o : Option StoredSession) (m : Moment) (l : Lifecycle)
      → l.session ≡ o
      → IsSound l
      → IsSound (touch_if parse_url trim json config b o m l)
  touch_if-IsSound true (some s) m l same h = touch_session-IsSound s m l same h
  touch_if-IsSound true none m l same h = h
  touch_if-IsSound false o m l same h = h

  touch-IsSound :
      (m : Moment) (l : Lifecycle) → IsSound l → IsSound (touch parse_url trim json config m l)
  unfolding touch
  touch-IsSound m l h = touch_if-IsSound l.started l.session m l refl h

  change_route-IsSound :
      (s : StoredSession) (p : PageContext) (m : Moment) (l : Lifecycle)
      → IsSound l
      → IsSound (change_route parse_url trim json config s p m l)
  unfolding change_route
  change_route-IsSound s p m l h =
      if-IsSound (is_expired config s m.now) _ _
        (emit-IsSound _ _ (emit-IsSound _ _ (enter-IsSound _ _ m l h.filed)))
        (emit-IsSound _ _ (enter-IsSound _ _ m l h.filed))

  navigate_from-IsSound :
      (b : Bool) (o : Option StoredSession) (q : Option PageContext) (m again : Moment)
      (l : Lifecycle)
      → IsSound l
      → IsSound (navigate_from parse_url trim json config b o q m again l)
  navigate_from-IsSound true (some s) (some p) m again l h =
      if-IsSound _ _ _ (touch-IsSound again l h) (change_route-IsSound s p m l h)
  navigate_from-IsSound true (some s) none m again l h = h
  navigate_from-IsSound true none q m again l h = h
  navigate_from-IsSound false o q m again l h = h

  -- One call of the host page.
  pub data Step : Lifecycle → Lifecycle → Type 0 where
    starts : (m : Moment) (l : Lifecycle) → Step l (start parse_url trim json config m l)
    touches : (m : Moment) (l : Lifecycle) → Step l (touch parse_url trim json config m l)
    navigates :
        (m again : Moment) (l : Lifecycle)
        → Step l (handle_navigation parse_url trim json config m again l)
    stops : (l : Lifecycle) → Step l (stop l)

  pub data Reach : Lifecycle → Type 0 where
    new : Reach initial
    next : {l k : Lifecycle} → Reach l → Step l k → Reach k

  Step-IsSound : {l k : Lifecycle} → Step l k → IsSound l → IsSound k
  unfolding handle_navigation
  Step-IsSound (starts m l) h = start-IsSound m l h
  Step-IsSound (touches m l) h = touch-IsSound m l h
  Step-IsSound (navigates m again l) h =
      navigate_from-IsSound l.started l.session l.page m again l h
  Step-IsSound (stops l) h = stop-IsSound l h

  -- After any sequence of calls, at most 32 page contexts are remembered, each under the URL of its
  -- page, and the context of the current page and session is among them.
  pub Reach-IsSound : {l : Lifecycle} → Reach l → IsSound l
  Reach-IsSound new = initial-IsSound
  Reach-IsSound (next r s) = Step-IsSound s (Reach-IsSound r)

  current_of :
      (o : Option StoredSession) (q : Option PageContext) (p : PageContext) (es : Entries)
      → q ≡ some p
      → HasCurrent o q es
      → lookup p.url es ≡ current parse_url trim json config o q
  current_of (some s) (some q) p es same h =
      subst (λ x. lookup x.url es ≡ some (context s q)) (some-injective q p same) h
  current_of none (some q) p es same h = absurd h
  current_of o none p es same h = cc

  -- After any sequence of calls, the context of a raw URL that sanitizes to the URL of the current page
  -- is the context that is given without a URL.
  pub context_for_navigation_url_lem :
      (l : Lifecycle) (p : PageContext) (raw : Text) (r : Text × Text)
      → Reach l
      → l.page ≡ some p
      → sanitize_page_url parse_url raw ≡ some r
      → r.0 ≡ p.url
      → context_for_navigation_url parse_url trim json config (some raw) l
        ≡ context_for_navigation_url parse_url trim json config none l
  unfolding context_for_navigation_url
  context_for_navigation_url_lem l p raw r reached paged clean same =
      rw (clean, same)
        (current_of l.session l.page p l.contexts paged (Reach-IsSound reached).current)
