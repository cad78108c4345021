-- ===== src/Browser/Lifecycle/Resume.antt =====
-- The session that `start` of packages/browser/src/lifecycle.ts reads back.
use spectro.Prelude.{
  ◌≤◌, ◌<◌, ◌≡◌, refl, true, false, Option, some, ◌∷◌, length, lt→ltb, le→leb, if◌then◌else◌, ap,
  ◌∙◌, Text,
}
use spectro.Browser.Lifecycle.Pages.{UrlParts}
use spectro.Browser.Lifecycle.{
  page_view, StoredSession, StoredValue, Lifecycle, LifecycleOptions, SessionJson, Moment,
  stored_session,
}
use spectro.Browser.Lifecycle.Calls.{
  start, is_expired, active, read_page, read_stored_session, alive, parsed, item, start_session,
}
use spectro.Browser.Lifecycle.Session.{captured, enter_lem}

stored_session-valid :
    (s : StoredSession)
    → 0 < length s.id
    → length s.id ≤ 128
    → stored_session (record {
      id = some s.id;
      started_at = some s.started_at;
      last_activity_at = some s.last_activity_at;
    })
      ≡ some s
unfolding stored_session
stored_session-valid s one short =
    rw (lt→ltb 0 (length s.id) one, le→leb (length s.id) 128 short) refl

module _ (parse_url : Text → Option UrlParts) (trim : Text → Text) (json : SessionJson)
    (config : LifecycleOptions) where
  read_stored_session_lem :
      (m : Moment) (s : StoredSession)
      → (json.parse (json.stringify s)
          ≡ some (record {
            id = some s.id;
            started_at = some s.started_at;
            last_activity_at = some s.last_activity_at;
          }))
      → (0 < length s.id) × (length s.id ≤ 128)
      → is_expired config s m.now ≡ false
      → m.stored ≡ some (json.stringify s)
      → read_stored_session parse_url trim json config m ≡ some s
  unfolding read_stored_session
  read_stored_session_lem m s prints (one, short) live stored =
      let value : StoredValue = record {
        id = some s.id;
        started_at = some s.started_at;
        last_activity_at = some s.last_activity_at;
      } in
      let stored_value : stored_session value ≡ some s = stored_session-valid s one short in
      ap
        (λ o.
          alive parse_url trim json config m.now
            (parsed parse_url trim json config (item parse_url trim json config o)))
        stored
      ∙ ap (λ v. alive parse_url trim json config m.now (parsed parse_url trim json config v))
          prints
      ∙ ap (alive parse_url trim json config m.now) stored_value
      ∙ rw live refl

  start_session_lem :
      (s : StoredSession) (m : Moment) (l : Lifecycle)
      → ((start_session parse_url trim json config (some s) m l).session ≡ some (active m.now s))
        × (captured (start_session parse_url trim json config (some s) m l).effects
            ≡ (page_view, m.now) ∷ captured l.effects)
  unfolding start_session
  start_session_lem s m l =
      let (is, _, silent) =
        enter_lem parse_url trim json config (active m.now s)
          (read_page parse_url trim json config m) m (record l { started = true }) in
      (is, ap (λ es. (page_view, m.now) ∷ es) silent)

  -- What another page of the tab has written is read back: a stored session with an identifier of 1 to
  -- 128 characters that has not expired goes on when a lifecycle starts, with a page view and no
  -- session start, if its JSON text is parsed to what was printed.
  pub start_continues :
      (m : Moment) (l : Lifecycle) (s : StoredSession)
      → (json.parse (json.stringify s)
          ≡ some (record {
            id = some s.id;
            started_at = some s.started_at;
            last_activity_at = some s.last_activity_at;
          }))
      → (0 < length s.id) × (length s.id ≤ 128)
      → is_expired config s m.now ≡ false
      → m.stored ≡ some (json.stringify s)
      → l.started ≡ false
      → ((start parse_url trim json config m l).session ≡ some (active m.now s))
        × (captured (start parse_url trim json config m l).effects
            ≡ (page_view, m.now) ∷ captured l.effects)
  unfolding start
  start_continues m l s prints valid live stored off =
      let read = read_stored_session_lem m s prints valid live stored in
      let started =
        ap
          (λ b.
            if b
            then l
            else start_session parse_url trim json config
                (read_stored_session parse_url trim json config m) m l)
          off
        ∙ ap (λ o. start_session parse_url trim json config o m l) read in
      rw started (start_session_lem s m l)
