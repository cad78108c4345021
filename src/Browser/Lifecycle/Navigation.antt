-- ===== src/Browser/Lifecycle/Navigation.antt =====
-- Route changes in packages/browser/src/lifecycle.ts.
use spectro.Prelude.{
  ℕ, ◌<◌, ◌≡◌, refl, Bool, true, false, Option, none, some, ◌∷◌, if◌then◌else◌, Bool-cases, inl,
  inr, ap, subst, sym, Text, text_eq,
}
use mathlib.Core.Option.{some-injective}
use spectro.Protocol.Context.{PageContext}
use spectro.Browser.Lifecycle.Pages.{UrlParts}
use spectro.Browser.Lifecycle.{
  LifecycleEvent, session_start, route_change, StoredSession, Lifecycle, LifecycleOptions,
  SessionJson, Moment,
}
use spectro.Browser.Lifecycle.Calls.{
  change_route, handle_navigation, is_expired, active, new_session, read_page, navigate_from,
}
use spectro.Browser.Lifecycle.Session.{captured, Continues, continued, enter_lem}

module _ (parse_url : Text → Option UrlParts) (trim : Text → Text) (json : SessionJson)
    (config : LifecycleOptions) where
  change_route_lem :
      (s : StoredSession) (p : PageContext) (m : Moment) (l : Lifecycle)
      → ((change_route parse_url trim json config s p m l).session
          ≡ (if is_expired config s m.now then some (new_session m) else some (active m.now s)))
        × ((change_route parse_url trim json config s p m l).page
            ≡ some (read_page parse_url trim json config m))
        × (captured (change_route parse_url trim json config s p m l).effects
            ≡ (route_change p.url (read_page parse_url trim json config m).url, m.now)
              ∷ (if is_expired config s m.now
                  then (session_start, m.now) ∷ captured l.effects
                  else captured l.effects))
  unfolding change_route
  change_route_lem s p m l =
      let next = read_page parse_url trim json config m in
      let (renewed, shown, silent) =
        enter_lem parse_url trim json config (new_session m) next m l in
      let (kept, paged, quiet) = enter_lem parse_url trim json config (active m.now s) next m l in
      let change : LifecycleEvent × ℕ = (route_change p.url next.url, m.now) in
      elim (Bool-cases (is_expired config s m.now)) [
        | inl e ↦ rw e (renewed, shown, ap (λ es. change ∷ (session_start, m.now) ∷ es) silent)
        | inr e ↦ rw e (kept, paged, ap (λ es. change ∷ es) quiet)
      ]

  navigate_from_on :
      (b : Bool) (o : Option StoredSession) (q : Option PageContext) (s : StoredSession)
      (p : PageContext) (m again : Moment) (l : Lifecycle)
      → b ≡ true
      → o ≡ some s
      → q ≡ some p
      → text_eq (read_page parse_url trim json config m).url p.url ≡ false
      → navigate_from parse_url trim json config b o q m again l
        ≡ change_route parse_url trim json config s p m l
  navigate_from_on true (some t) (some q) s p m again l on has paged other =
      let go = change_route parse_url trim json config in
      let renamed = some-injective q p paged in rw (some-injective t s has, renamed, other) refl
  navigate_from_on true (some t) none s p m again l on has paged other = cc
  navigate_from_on true none q s p m again l on has paged other = cc
  navigate_from_on false o q s p m again l on has paged other = cc

  -- A navigation of a started lifecycle to a page of another URL, for a positive timeout: the new page
  -- is current, the session is alive, the same one or a new one as for activity, and the route change
  -- is captured last, after the start of a session that is new.
  pub handle_navigation_lem :
      (m again : Moment) (l : Lifecycle) (s : StoredSession) (p : PageContext)
      → 0 < config.session_timeout_ms
      → l.started ≡ true
      → l.session ≡ some s
      → l.page ≡ some p
      → text_eq (read_page parse_url trim json config m).url p.url ≡ false
      → Continues config m s (handle_navigation parse_url trim json config m again l).session
        × ((handle_navigation parse_url trim json config m again l).page
            ≡ some (read_page parse_url trim json config m))
        × (captured (handle_navigation parse_url trim json config m again l).effects
            ≡ (route_change p.url (read_page parse_url trim json config m).url, m.now)
              ∷ (if is_expired config s m.now
                  then (session_start, m.now) ∷ captured l.effects
                  else captured l.effects))
  unfolding handle_navigation
  handle_navigation_lem m again l s p positive on has paged other =
      let (is, shown, rest) = change_route_lem s p m l in
      rw (navigate_from_on l.started l.session l.page s p m again l on has paged other)
        (subst (Continues config m s) (sym is) (continued config m s positive), shown, rest)
