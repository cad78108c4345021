-- ===== src/Api/Auth/Sessions.antt =====
-- The life of a console session of apps/api/src/postgres-auth-control-plane.ts.
use spectro.Prelude.{
  ℕ, ◌<◌, ◌≡◌, refl, sym, ap, subst, ◌∙◌, Bool, true, false, not, Option, none, some, List, [], ◌∷◌,
  leb, ltb→lt, lt→ltb, if◌then◌else◌, is_some, map, find, All, arith, Bool-cases, Option-cases, inl,
  inr, Text, text_eq, text_eq_refl, is_token, ok, if-refused,
}
use mathlib.Core.Option.{some-injective}
use spectro.Api.Members.{is_active}
use spectro.Api.Tables.{ConsoleSession, Tables}
use spectro.Api.Auth.{
  has_session, create_session, revoke_session, revoke_row, session_row, is_live, user_of,
  resolve_session, key_exists, expiration_past, user_unavailable,
}
use spectro.Api.Auth.Steps.{Steps, Steps-Holds}

find-All :
    (p : ConsoleSession → Bool) (P : ConsoleSession → Type 0) (ss : List ConsoleSession)
    (s : ConsoleSession)
    → All P ss
    → find p ss ≡ some s
    → (p s ≡ true) × P s
find-All p P [] s all h = cc
find-All p P (x ∷ xs) s (px, all) h = elim (Bool-cases (p x)) [
  | inl e ↦
      let same = some-injective x s (sym (rw (e, find) refl) ∙ h) in
      (subst (λ y. p y ≡ true) same e, subst P same px)
  | inr e ↦ find-All p P xs s all (sym (rw (e, find) refl) ∙ h)
]

has_session-All :
    (h : Text) (P : ConsoleSession → Type 0) (ss : List ConsoleSession)
    → has_session h ss ≡ false
    → All (λ s. text_eq s.token_hash h ≡ true → P s) ss
has_session-All h P [] absent = tt
has_session-All h P (s ∷ ss) absent =
    (λ same. absurd (ground arith), has_session-All h P ss (ground arith))

module _ (hash : Text → Text) where
  create_session-ok :
      (token user given : Text) (expires_at now : ℕ) (t u : Tables)
      → create_session hash token user expires_at now t ≡ (ok given, u)
      → (is_active user t.members.people ≡ true)
        × (has_session (hash token) t.sessions ≡ false)
        × (u ≡ record t { sessions = session_row hash user token expires_at ∷ t.sessions })
  unfolding create_session
  create_session-ok token user given expires_at now t u h =
      let (_, h1) = if-refused (leb expires_at now) expiration_past t _ h in
      let (on, h2) = if-refused (not (is_active user t.members.people)) user_unavailable t _ h1 in
      let (free, h3) = if-refused (has_session (hash token) t.sessions) key_exists t _ h2 in
      (ground arith, free, sym (ap (λ r. r.1) h3))

  -- The rows of the token are of the user and the expiry.
  abbrev Owns : (token user : Text) → ℕ → List ConsoleSession → Type 0
  Owns token user expires_at ss =
      (has_session (hash token) ss ≡ true)
      × All
          (λ s.
            text_eq s.token_hash (hash token) ≡ true
            → (s.user_id ≡ user) × (s.expires_at ≡ expires_at))
          ss

  create_session-Owns :
      (token user given : Text) (expires_at now : ℕ) (t u : Tables)
      → create_session hash token user expires_at now t ≡ (ok given, u)
      → Owns token user expires_at u.sessions
  create_session-Owns token user given expires_at now t u h =
      let (_, free, is) = create_session-ok token user given expires_at now t u h in
      subst (λ v. Owns token user expires_at v.sessions) (sym is)
        (
          rw (text_eq_refl (hash token)) refl,
          (λ _. (refl, refl), has_session-All (hash token) _ t.sessions free),
        )

  user_of-some :
      (b : Bool) (o : Option ConsoleSession) (v : Text)
      → (if b then user_of hash o else none) ≡ some v
      → (s : ConsoleSession) × (o ≡ some s) × (s.user_id ≡ v)
  user_of-some true (some s) v h = (s, refl, some-injective s.user_id v h)
  user_of-some true none v h = cc
  user_of-some false o v h = cc

  -- After the revocation all rows of the token are revoked.
  map_revoked :
      (token : Text) (at : ℕ) (ss : List ConsoleSession)
      → All
          (λ s. text_eq s.token_hash (hash token) ≡ true → is_some s.revoked_at ≡ true)
          (map (revoke_row hash token at) ss)
  map_revoked token at [] = tt
  map_revoked token at (s ∷ ss) = (λ e. ground (arith, e), map_revoked token at ss)

  has_session-map :
      (token : Text) (at : ℕ) (ss : List ConsoleSession)
      → has_session (hash token) ss ≡ true
      → has_session (hash token) (map (revoke_row hash token at) ss) ≡ true
  has_session-map token at [] h = h
  has_session-map token at (s ∷ ss) h = ground (arith, has_session-map token at ss)

  revoke_session-Gone :
      (token : Text) (at : ℕ) (v : Tables)
      → is_token token ≡ true
      → has_session (hash token) v.sessions ≡ true
      → (has_session (hash token) (revoke_session hash token at v).sessions ≡ true)
        × All
            (λ s. text_eq s.token_hash (hash token) ≡ true → is_some s.revoked_at ≡ true)
            (revoke_session hash token at v).sessions
  unfolding revoke_session
  revoke_session-Gone token at v valid h =
      rw valid (has_session-map token at v.sessions h, map_revoked token at v.sessions)

  resolve_session-some :
      (token : Text) (now : ℕ) (t : Tables) (v : Text) (P : ConsoleSession → Type 0)
      → All (λ s. text_eq s.token_hash (hash token) ≡ true → P s) t.sessions
      → resolve_session hash token now t ≡ some v
      → (s : ConsoleSession) × (is_live hash token now t.members.people s ≡ true)
        × P s
        × (s.user_id ≡ v)
  unfolding resolve_session
  resolve_session-some token now t v P all h =
      let (s, f, is) =
        user_of-some (is_token token) (find (is_live hash token now t.members.people) t.sessions) v
          h in
      let (live, owned) = find-All (is_live hash token now t.members.people) _ t.sessions s all f in
      (s, live, owned (ground (arith, live)), is)

  -- Whatever calls follow the creation of a session, its token resolves to no one, or to the user for
  -- whom it was created, who is not disabled, and only before it expires.
  pub create-resolve :
      (lower trim : Text → Text) (token user given v : Text) (expires_at now later : ℕ)
      (t u w : Tables)
      → create_session hash token user expires_at now t ≡ (ok given, u)
      → Steps hash lower trim u w
      → resolve_session hash token later w ≡ some v
      → (v ≡ user) × (later < expires_at) × (is_active user w.members.people ≡ true)
  create-resolve lower trim token user given v expires_at now later t u w made steps h =
      let owns =
        Steps-Holds hash lower trim (hash token)
          (λ s. (s.user_id ≡ user) × (s.expires_at ≡ expires_at)) (λ s at p. p) steps
          (create_session-Owns token user given expires_at now t u made) in
      let (s, live, (mine, until), is) = resolve_session-some token later w v _ owns.1 h in
      (
        sym is ∙ mine,
        subst (λ n. later < n) until (ltb→lt later s.expires_at (ground (arith, live))),
        subst (λ x. is_active x w.members.people ≡ true) mine (ground (arith, live)),
      )

  -- A new session resolves to its user until it expires, if its token has the form of one.
  pub create_resolves :
      (token user given : Text) (expires_at now later : ℕ) (t u : Tables)
      → is_token token ≡ true
      → create_session hash token user expires_at now t ≡ (ok given, u)
      → later < expires_at
      → resolve_session hash token later u ≡ some user
  unfolding resolve_session
  create_resolves token user given expires_at now later t u valid made early =
      let (on, free, is) = create_session-ok token user given expires_at now t u made in
      subst (λ w. resolve_session hash token later w ≡ some user) (sym is)
        (rw (valid, text_eq_refl (hash token), lt→ltb later expires_at early, on) refl)

  -- Once a session has been revoked, its token never resolves again, whatever calls follow.
  pub revoke_session-final :
      (lower trim : Text → Text) (token user given : Text) (expires_at now at later : ℕ)
      (t u v w : Tables)
      → is_token token ≡ true
      → create_session hash token user expires_at now t ≡ (ok given, u)
      → Steps hash lower trim u v
      → Steps hash lower trim (revoke_session hash token at v) w
      → resolve_session hash token later w ≡ none
  revoke_session-final lower trim token user given expires_at now at later t u v w valid made first
        then_ =
      let owns =
        Steps-Holds hash lower trim (hash token)
          (λ s. (s.user_id ≡ user) × (s.expires_at ≡ expires_at)) (λ s at p. p) first
          (create_session-Owns token user given expires_at now t u made) in
      let gone =
        Steps-Holds hash lower trim (hash token) (λ s. is_some s.revoked_at ≡ true) (λ s at p. refl)
          then_ (revoke_session-Gone token at v valid owns.0) in
      elim (Option-cases (resolve_session hash token later w)) [
        | inl e ↦ e
        | inr (x, e) ↦
            let (s, live, revoked, _) = resolve_session-some token later w x _ gone.1 e in
            absurd (ground (arith, live, revoked))
      ]
