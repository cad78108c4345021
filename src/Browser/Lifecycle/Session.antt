-- ===== src/Browser/Lifecycle/Session.antt =====
-- How activity keeps or renews the session of packages/browser/src/lifecycle.ts, and what is captured.
use spectro.Prelude.{
  ℕ, ◌<◌, ◌≡◌, ◌⊎◌, refl, Bool, true, false, Option, none, some, List, [], ◌∷◌, if◌then◌else◌,
  arith, Bool-cases, inl, inr, ap, subst, sym, Text,
}
use mathlib.Core.Option.{some-injective}
use spectro.Protocol.Context.{PageContext}
use spectro.Browser.Lifecycle.Pages.{UrlParts}
use spectro.Browser.Lifecycle.{
  pos, Effect, LifecycleEvent, captures, updates_context, writes, unsubscribes, page_view,
  session_start, StoredSession, Lifecycle, LifecycleOptions, SessionJson, Moment,
}
use spectro.Browser.Lifecycle.Calls.{
  enter, touch, touch_session, persist_session, is_expired, active, new_session, read_page, alive,
  item, touch_if,
}

-- The events captured, the latest first.
abbrev pub captured : List Effect → List (LifecycleEvent × ℕ)
captured [] = []
captured (captures c at ∷ es) = (c, at) ∷ captured es
captured (updates_context c ∷ es) = captured es
captured (writes item ∷ es) = captured es
captured (unsubscribes s ∷ es) = captured es

module _ (config : LifecycleOptions) where
  -- The session `s` goes on, active at this moment, if it is alive, and a new one has taken its place if it has expired; either
  -- is alive now.
  abbrev pub Continues : Moment → StoredSession → Option StoredSession → Type 0
  Continues m s after =
      (t : StoredSession) × (after ≡ some t)
      × (is_expired config t m.now ≡ false)
      × (((is_expired config s m.now ≡ false)
            × (t.id ≡ s.id)
            × (t.started_at ≡ s.started_at)
            × (t.last_activity_at ≡ pos m.now))
          ⊎ ((is_expired config s m.now ≡ true) × (t ≡ new_session m)))

  active-is_alive :
      (now : ℕ) (s : StoredSession)
      → 0 < config.session_timeout_ms
      → is_expired config s now ≡ false
      → is_expired config (active now s) now ≡ false
  unfolding is_expired
  active-is_alive now s positive alive = ground arith

  new_session-is_alive :
      (m : Moment) → 0 < config.session_timeout_ms → is_expired config (new_session m) m.now ≡ false
  unfolding is_expired
  new_session-is_alive m positive = ground arith

  pub continued :
      (m : Moment) (s : StoredSession)
      → 0 < config.session_timeout_ms
      → Continues m s
          (if is_expired config s m.now then some (new_session m) else some (active m.now s))
  continued m s positive = elim (Bool-cases (is_expired config s m.now)) [
    | inl e ↦ rw e (new_session m, refl, new_session-is_alive m positive, inr (refl, refl))
    | inr e ↦
        rw e
          (active m.now s, refl, active-is_alive m.now s positive e, inl (refl, refl, refl, refl))
  ]

module _ (parse_url : Text → Option UrlParts) (trim : Text → Text) (json : SessionJson)
    (config : LifecycleOptions) where
  -- Only the time of the last write and the effects may differ, and nothing more is captured.
  abbrev Persisted : Lifecycle → Lifecycle → Type 0
  Persisted l k =
      (k.session ≡ l.session) × (k.page ≡ l.page) × (captured k.effects ≡ captured l.effects)

  if-Persisted :
      (b : Bool) (l x y : Lifecycle)
      → Persisted l x
      → Persisted l y
      → Persisted l (if b then x else y)
  if-Persisted true l x y h k = h
  if-Persisted false l x y h k = k

  persist_session-Persisted :
      (o : Option StoredSession) (force : Bool) (m : Moment) (l : Lifecycle)
      → Persisted l (persist_session parse_url trim json config o force m l)
  persist_session-Persisted none force m l = (refl, refl, refl)
  persist_session-Persisted (some s) force m l =
      if-Persisted _ l _ _ (refl, refl, refl)
        (if-Persisted m.writable l _ _ (refl, refl, refl) (refl, refl, refl))

  pub enter_lem :
      (s : StoredSession) (p : PageContext) (m : Moment) (l : Lifecycle)
      → ((enter parse_url trim json config s p m l).session ≡ some s)
        × ((enter parse_url trim json config s p m l).page ≡ some p)
        × (captured (enter parse_url trim json config s p m l).effects ≡ captured l.effects)
  unfolding enter
  enter_lem s p m l = persist_session-Persisted (some s) true m _

  touch_session_lem :
      (s : StoredSession) (m : Moment) (l : Lifecycle)
      → ((touch_session parse_url trim json config s m l).session
          ≡ (if is_expired config s m.now then some (new_session m) else some (active m.now s)))
        × (captured (touch_session parse_url trim json config s m l).effects ≡ (
            if is_expired config s m.now
            then (page_view, m.now) ∷ (session_start, m.now) ∷ captured l.effects
            else captured l.effects))
  unfolding touch_session
  touch_session_lem s m l =
      let (in_session, _, silent) =
        enter_lem (new_session m) (read_page parse_url trim json config m) m l in
      let touched = record l { session = some (active m.now s) } in
      let (kept, _, quiet) = persist_session-Persisted (some (active m.now s)) false m touched in
      elim (Bool-cases (is_expired config s m.now)) [
        | inl e ↦
            rw e (in_session, ap (λ es. (page_view, m.now) ∷ (session_start, m.now) ∷ es) silent)
        | inr e ↦ rw e (kept, quiet)
      ]

  touch_if_on :
      (b : Bool) (o : Option StoredSession) (s : StoredSession) (m : Moment) (l : Lifecycle)
      → b ≡ true
      → o ≡ some s
      → touch_if parse_url trim json config b o m l ≡ touch_session parse_url trim json config s m l
  touch_if_on true (some t) s m l on has =
      ap (λ x. touch_session parse_url trim json config x m l) (some-injective t s has)
  touch_if_on true none s m l on has = cc
  touch_if_on false o s m l on has = cc

  -- Activity on a started lifecycle with a session, for a positive timeout: the session is alive
  -- afterwards. It is the same one, now last active at this moment, and nothing is captured, if it was
  -- alive; otherwise it is new, and
  -- its start and then a view of the page are captured.
  pub touch_lem :
      (m : Moment) (l : Lifecycle) (s : StoredSession)
      → 0 < config.session_timeout_ms
      → l.started ≡ true
      → l.session ≡ some s
      → Continues config m s (touch parse_url trim json config m l).session
        × (captured (touch parse_url trim json config m l).effects ≡ (
            if is_expired config s m.now
            then (page_view, m.now) ∷ (session_start, m.now) ∷ captured l.effects
            else captured l.effects))
  unfolding touch
  touch_lem m l s positive on has =
      let (is, rest) = touch_session_lem s m l in
      rw (touch_if_on l.started l.session s m l on has)
        (subst (Continues config m s) (sym is) (continued config m s positive), rest)
