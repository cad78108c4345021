-- ===== src/Examples/Browser.antt =====
-- The theorems on the browser lifecycle, on a concrete page.
use spectro.Prelude.{
  ℕ, ◌≡◌, refl, true, false, Option, some, [], ◌∷◌, sym, ◌∙◌, arith, if◌then◌else◌, subst,
  Bool-cases, inl, inr, Text, text, text_eq,
}
use mathlib.Core.Option.{some-injective}
use spectro.Browser.Lifecycle.Pages.{
  UrlParts, RawPageSnapshot, sanitized, sanitize_page_url, create_page_context,
}
use spectro.Browser.Lifecycle.{
  Lifecycle, StoredSession, SessionJson, LifecycleOptions, Moment, pos, stored_session, page_view,
  session_start, route_change,
}
use spectro.Browser.Lifecycle.Calls.{
  start, start_session, touch, handle_navigation, enter, read_stored_session, is_expired, active,
  read_page,
}
use spectro.Browser.Lifecycle.Sanitize.{IsSafePage, PartsHaveNoQuery, create_page_context_lem}
use spectro.Browser.Lifecycle.Session.{Continues, captured, touch_lem}
use spectro.Browser.Lifecycle.Navigation.{handle_navigation_lem}
use spectro.Browser.Lifecycle.Resume.{start_continues}
use spectro.Browser.Lifecycle.History.{IsSound, initial, Reach, new, next, starts, Reach-IsSound}

abbrev shop : UrlParts
shop = record {
  origin = text "null";
  protocol = text "p:";
  pathname = text "/";
  hash = text "#/a?b";
}

abbrev home : UrlParts
home = record { origin = text "o"; protocol = text "p:"; pathname = text "/"; hash = [] }

-- A parser that knows two URLs.
abbrev parse_url : Text → Option UrlParts
parse_url raw = if text_eq raw (text "shop") then some shop else some home

abbrev same : Text → Text
same t = t

parse_url-keeps_apart :
    (raw : Text) (parts : UrlParts) → parse_url raw ≡ some parts → PartsHaveNoQuery parts
parse_url-keeps_apart raw parts h = elim (Bool-cases (text_eq raw (text "shop"))) [
  | inl e ↦
      subst PartsHaveNoQuery (some-injective shop parts (sym (rw e refl) ∙ h))
        ((refl, (refl, (refl, (refl, tt)))), (refl, (refl, tt)), (refl, tt))
  | inr e ↦
      subst PartsHaveNoQuery (some-injective home parts (sym (rw e refl) ∙ h))
        ((refl, tt), (refl, (refl, tt)), (refl, tt))
]

abbrev at_shop : RawPageSnapshot
at_shop = record { href = text "shop"; title = text "Cart"; referrer = [] }

abbrev at_home : RawPageSnapshot
at_home = record { href = text "home"; title = text "Home"; referrer = text "shop" }

create_page_context_lem_example :
    IsSafePage (create_page_context parse_url same at_home (text "p1"))
create_page_context_lem_example =
    create_page_context_lem parse_url parse_url-keeps_apart same at_home (text "p1")

abbrev one_session : StoredSession
one_session = record { id = text "s"; started_at = pos 10; last_activity_at = pos 20 }

-- A storage format in which every item is the session above.
abbrev json : SessionJson
json = record {
  parse = λ item.
      some
        (record { id = some item; started_at = some (pos 10); last_activity_at = some (pos 20) });
  stringify = λ s. s.id;
}

abbrev config : LifecycleOptions
config = record { storage_key = text "spectro.session.v1:p:e"; session_timeout_ms = 1000 }

abbrev moment : ℕ → RawPageSnapshot → Moment
moment now snapshot = record {
  now = now;
  later = now;
  stored = some (text "s");
  writable = true;
  session_id = text "s2";
  page_id = text "p";
  snapshot = snapshot;
}

abbrev begun : Lifecycle
begun = start parse_url same json config (moment 100 at_home) initial

begun-is_reached : Reach parse_url same json config begun
begun-is_reached = next new (starts (moment 100 at_home) initial)

Reach-IsSound_example : IsSound begun
Reach-IsSound_example = Reach-IsSound parse_url same json config begun-is_reached

begun_page : begun.page ≡ some (read_page parse_url same json config (moment 100 at_home))
unfolding start start_session read_stored_session stored_session is_expired enter
begun_page = refl

begun_session : begun.session ≡ some (active 100 one_session)
unfolding start start_session read_stored_session stored_session is_expired enter
begun_session = refl

begun_started : begun.started ≡ true
unfolding start start_session read_stored_session stored_session is_expired enter
begun_started = refl

home_url : sanitize_page_url parse_url (text "home") ≡ some (sanitized home)
unfolding sanitize_page_url text_eq
home_url = refl

home_page : (sanitized home).0 ≡ (read_page parse_url same json config (moment 100 at_home)).url
unfolding create_page_context sanitize_page_url text_eq
home_page = refl

-- 5000 is later than the session's timeout of 1000.
touch_lem_example :
    Continues config
      (moment 5000 at_home)
      (active 100 one_session)
      (touch parse_url same json config (moment 5000 at_home) begun).session
    × (captured (touch parse_url same json config (moment 5000 at_home) begun).effects ≡ (
        if is_expired config (active 100 one_session) 5000
        then (page_view, 5000) ∷ (session_start, 5000) ∷ captured begun.effects
        else captured begun.effects))
touch_lem_example =
    touch_lem parse_url same json config (moment 5000 at_home) begun (active 100 one_session)
      (omega arith) begun_started begun_session

routes_differ :
    text_eq
      (read_page parse_url same json config (moment 200 at_shop)).url
      (read_page parse_url same json config (moment 100 at_home)).url
    ≡ false
unfolding create_page_context sanitize_page_url text_eq
routes_differ = refl

handle_navigation_lem_example :
    Continues config
      (moment 200 at_shop)
      (active 100 one_session)
      (handle_navigation parse_url same json config
        (moment 200 at_shop)
        (moment 200 at_shop)
        begun).session
    × ((handle_navigation parse_url same json config
          (moment 200 at_shop)
          (moment 200 at_shop)
          begun).page
        ≡ some (read_page parse_url same json config (moment 200 at_shop)))
    × (captured
          (handle_navigation parse_url same json config
            (moment 200 at_shop)
            (moment 200 at_shop)
            begun).effects
        ≡ (
          route_change
              (read_page parse_url same json config (moment 100 at_home)).url
              (read_page parse_url same json config (moment 200 at_shop)).url,
          200,
        )
          ∷ (if is_expired config (active 100 one_session) 200
              then (session_start, 200) ∷ captured begun.effects
              else captured begun.effects))
handle_navigation_lem_example =
    handle_navigation_lem parse_url same json config (moment 200 at_shop) (moment 200 at_shop) begun
      (active 100 one_session) (read_page parse_url same json config (moment 100 at_home))
      (omega arith) begun_started begun_session begun_page routes_differ

one_session-is_alive : is_expired config one_session 100 ≡ false
unfolding is_expired
one_session-is_alive = refl

start_continues_example :
    (begun.session ≡ some (active 100 one_session))
    × (captured begun.effects ≡ (page_view, 100) ∷ [])
start_continues_example =
    start_continues parse_url same json config (moment 100 at_home) initial one_session refl
      (omega arith, omega arith) one_session-is_alive refl refl
