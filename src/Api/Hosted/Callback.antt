-- ===== src/Api/Hosted/Callback.antt =====
-- When the callback of apps/api/src/hosted-auth.ts signs a user in.
use spectro.Prelude.{
  ℕ, ◌+◌, ◌≡◌, refl, ap, ◌∙◌, Bool, true, false, Option, none, some, if◌then◌else◌, Text, text,
  Either, ok, err,
}
use spectro.Api.Tables.{ReturnPath, root}
use spectro.Api.Auth.{Attempt, OidcIdentity, AuthError}
use spectro.Api.Hosted.Provider.{OidcFailure}
use spectro.Api.Hosted.{
  FailureReason, callback_state_invalid, ControlPlane, WebRequest, CallbackQuery,
  login_callback_schema, CallbackReply, logged_in, login_failed, is_given, is_given-some,
  session_ttl_ms, CallbackUrl, callback_url, Query,
}
use spectro.Api.Hosted.SignIn.{
  after_provider, callback, after_revocation, after_session, after_user, after_exchange,
  after_attempt, callback_with,
}

module _ {ℓ} {S : Type ℓ} (plane : ControlPlane S) where
  -- The user has a new session, and a session of the cookie has been revoked before the reply.
  abbrev pub IsIssued :
      (previous : Option Text)
      → (token user : Text) → (expires_at : ℕ) → (before after : S) → Type ℓ
  IsIssued none token user expires_at before after =
      plane.create_session user expires_at before ≡ (ok token, after)
  IsIssued (some p) token user expires_at before after =
      (s : S) × (plane.create_session user expires_at before ≡ (ok token, s))
      × (plane.revoke_session p s ≡ (ok tt, after))

  after_revocation-IsIssued :
      (token t : Text) (path r : ReturnPath) (o : Either AuthError (Unit {0}) × S) (s : S)
      → after_revocation plane token path o ≡ (logged_in t r, s)
      → (o ≡ (ok tt, s)) × (token ≡ t) × (path ≡ r)
  after_revocation-IsIssued token t path r (ok tt, x) s h = (cc, cc, cc)
  after_revocation-IsIssued token t path r (err e, x) s h = cc

  after_session-IsIssued :
      (previous : Option Text) (t : Text) (path r : ReturnPath) (user : Text) (expires_at : ℕ)
      (b s : S) (o : Either AuthError Text × S)
      → plane.create_session user expires_at b ≡ o
      → after_session plane previous path o ≡ (logged_in t r, s)
      → IsIssued previous t user expires_at b s × (path ≡ r)
  after_session-IsIssued previous t path r user expires_at b s (err e, x) is h = cc
  after_session-IsIssued none t path r user expires_at b s (ok token, x) is h = (cc, cc)
  after_session-IsIssued (some p) t path r user expires_at b s (ok token, x) is h =
      let (revoked, same, to) =
        after_revocation-IsIssued token t path r (plane.revoke_session p x) s h in
      ((x, is ∙ ap (λ k. (ok k, x)) same, revoked), to)

  -- The user of an identity has a new session.
  abbrev pub IsIdentified :
      (previous : Option Text)
      → (token : Text) → OidcIdentity
      → (expires_at : ℕ) → (before after : S) → Type ℓ
  IsIdentified previous token identity expires_at before after =
      (user : Text) × (s : S) × (plane.find_or_create_user identity before ≡ (ok user, s))
      × IsIssued previous token user expires_at s after

  after_user-IsIdentified :
      (previous : Option Text) (now : ℕ) (t : Text) (path r : ReturnPath) (identity : OidcIdentity)
      (b s : S) (o : Either AuthError Text × S)
      → plane.find_or_create_user identity b ≡ o
      → after_user plane previous now path o ≡ (logged_in t r, s)
      → IsIdentified previous t identity (now + session_ttl_ms) b s × (path ≡ r)
  after_user-IsIdentified previous now t path r identity b s (err e, x) is h = cc
  after_user-IsIdentified previous now t path r identity b s (ok user, x) is h =
      let (issued, to) =
        after_session-IsIssued previous t path r user (now + session_ttl_ms) x s _ refl h in
      ((user, x, is, issued), to)

  module _ (exchange : (state nonce code_verifier : Text) → Either OidcFailure OidcIdentity) where
    -- The attempt is exchanged for an identity, whose user has a new session.
    abbrev pub IsExchanged :
        CallbackQuery
        → (previous : Option Text) → (token : Text) → Attempt
        → (expires_at : ℕ) → (before after : S) → Type ℓ
    IsExchanged q previous token a expires_at before after =
        (q.error ≡ none)
        × ((c : Text) × (q.code ≡ some c))
        × (identity : OidcIdentity) × (exchange q.state a.nonce a.code_verifier ≡ ok identity)
        × IsIdentified previous token identity expires_at before after

    after_exchange-IsExchanged :
        (q : CallbackQuery) (previous : Option Text) (now : ℕ) (t : Text) (a : Attempt)
        (r : ReturnPath) (b s : S)
        → q.error ≡ none
        → (c : Text) × (q.code ≡ some c)
        → (o : Either OidcFailure OidcIdentity) → exchange q.state a.nonce a.code_verifier ≡ o
        → after_exchange plane previous now a.return_path o b ≡ (logged_in t r, s)
        → IsExchanged q previous t a (now + session_ttl_ms) b s × (a.return_path ≡ r)
    after_exchange-IsExchanged q previous now t a r b s quiet code (err e) is h = cc
    after_exchange-IsExchanged q previous now t a r b s quiet code (ok identity) is h =
        let (identified, to) =
          after_user-IsIdentified previous now t a.return_path r identity b s _ refl h in
        ((quiet, code, identity, is, identified), to)

    after_provider-IsExchanged :
        (q : CallbackQuery) (error code previous : Option Text) (now : ℕ) (t : Text) (a : Attempt)
        (r : ReturnPath) (b s : S)
        → q.error ≡ error
        → q.code ≡ code
        → after_provider plane error code previous now a.return_path
            (exchange q.state a.nonce a.code_verifier)
            b
          ≡ (logged_in t r, s)
        → IsExchanged q previous t a (now + session_ttl_ms) b s × (a.return_path ≡ r)
    after_provider-IsExchanged q (some e) code previous now t a r b s is_error is_code h = cc
    after_provider-IsExchanged q none none previous now t a r b s is_error is_code h = cc
    after_provider-IsExchanged q none (some c) previous now t a r b s is_error is_code h =
        after_exchange-IsExchanged q previous now t a r b s is_error (c, is_code) _ refl h

    -- What has happened when the callback redirects with a new session.
    abbrev pub IsSignedIn :
        CallbackQuery
        → WebRequest
        → (now : ℕ) → (token : Text) → ReturnPath
        → (before after : S) → Type ℓ
    IsSignedIn q request now token path before after =
        (request.login_cookie ≡ some q.state)
        × (a : Attempt) × (s : S) × (plane.consume_login_attempt q.state before ≡ (ok (some a), s))
        × IsExchanged q request.session_cookie token a (now + session_ttl_ms) s after
        × (a.return_path ≡ path)

    after_attempt-IsSignedIn :
        (q : CallbackQuery) (request : WebRequest) (now : ℕ) (t : Text) (r : ReturnPath) (b s : S)
        (o : Either AuthError (Option Attempt) × S)
        → request.login_cookie ≡ some q.state
        → plane.consume_login_attempt q.state b ≡ o
        → after_attempt plane exchange q request.session_cookie now o ≡ (logged_in t r, s)
        → IsSignedIn q request now t r b s
    after_attempt-IsSignedIn q request now t r b s (err e, x) cookie is h = cc
    after_attempt-IsSignedIn q request now t r b s (ok none, x) cookie is h = cc
    after_attempt-IsSignedIn q request now t r b s (ok (some a), x) cookie is h =
        let (exchanged, to) =
          after_provider-IsExchanged q q.error q.code request.session_cookie now t a r x s refl refl
            h in
        (cookie, a, x, is, exchanged, to)

    if-passed :
        (bit : Bool) (o : CallbackReply × S) (reason : FailureReason) (path r : ReturnPath)
        (t : Text) (b s : S)
        → (if bit then o else (login_failed reason none path, b)) ≡ (logged_in t r, s)
        → (bit ≡ true) × (o ≡ (logged_in t r, s))
    if-passed true o reason path r t b s h = (refl, h)
    if-passed false o reason path r t b s h = cc

    callback_with-IsSignedIn :
        (parsed : Either FailureReason CallbackQuery) (request : WebRequest) (now : ℕ) (t : Text)
        (r : ReturnPath) (b s : S)
        → callback_with plane exchange parsed request now b ≡ (logged_in t r, s)
        → (q : CallbackQuery) × (parsed ≡ ok q) × IsSignedIn q request now t r b s
    callback_with-IsSignedIn (err reason) request now t r b s h = cc
    callback_with-IsSignedIn (ok q) request now t r b s h =
        let (same, rest) =
          if-passed (is_given request.login_cookie q.state) _ callback_state_invalid root r t b s
            h in
        (
          q,
          refl,
          after_attempt-IsSignedIn q request now t r b s _
              (is_given-some request.login_cookie q.state same) refl rest,
        )

  -- The callback signs a user in only if the state of its query is the one in the login cookie and names
  -- an attempt that is consumed by it, the provider reports no error, the query has a code, and the
  -- provider exchanges the callback's URL on the public origin, with just this query and with the
  -- attempt's nonce and verifier, for an identity. The new session is that of the identity's user, lasts
  -- seven days, and is sent after the session of the request, if it has one, has been revoked.
  pub callback_lem :
      (exchange : CallbackUrl
        → (state nonce code_verifier : Text) → Either OidcFailure OidcIdentity)
      (parse_query : Text → Query) (public_origin search : Text) (request : WebRequest) (now : ℕ)
      (t : Text) (r : ReturnPath) (b s : S)
      → callback plane exchange parse_query public_origin search request now b ≡ (logged_in t r, s)
      → (q : CallbackQuery) × (login_callback_schema
            (parse_query search).state
            (parse_query search).code
            (parse_query search).error
          ≡ ok q)
        × IsSignedIn
            (exchange
              (record { origin = public_origin; path = text "/v1/auth/callback"; search = search }))
            q
            request
            now
            t
            r
            b
            s
  unfolding callback
  callback_lem exchange parse_query public_origin search request now t r b s h =
      callback_with-IsSignedIn (exchange (callback_url public_origin search))
        (login_callback_schema (parse_query search).state (parse_query search).code
          (parse_query search).error)
        request now t r b s h
