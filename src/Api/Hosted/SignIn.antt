-- ===== src/Api/Hosted/SignIn.antt =====
-- The login and the callback of apps/api/src/hosted-auth.ts.
use spectro.Prelude.{
  ℕ, ◌+◌, Option, none, some, if◌then◌else◌, or_else, Text, text, text_eq, Either, ok, err,
}
use spectro.Api.Tables.{ReturnPath, root}
use spectro.Api.Auth.{Attempt, OidcIdentity, AuthError}
use spectro.Api.Hosted.Provider.{OidcFailure, oidc_failure_details}
use spectro.Api.Hosted.{
  session_ttl_ms, FailureReason, ControlPlane, Url, WebRequest, CallbackQuery, CallbackUrl,
  callback_url, Query, login_callback_schema, CallbackReply, LoginReply, is_given,
  callback_state_invalid, login_attempt_store_failed, login_attempt_unavailable, provider_rejected,
  authorization_code_missing, oidc_exchange_failed, identity_store_failed, session_store_failed,
  previous_session_revocation_failed, login_failed, logged_in, invalid_request, login_unavailable,
  redirected,
}

module _ {ℓ} {S : Type ℓ} (plane : ControlPlane S) where
  abbrev pub after_revocation :
      (token : Text) → ReturnPath → Either AuthError (Unit {0}) × S → CallbackReply × S
  after_revocation token path (ok _, s) = (logged_in token path, s)
  after_revocation token path (err e, s) =
      (login_failed previous_session_revocation_failed none path, s)

  abbrev pub after_session :
      (previous : Option Text) → ReturnPath → Either AuthError Text × S → CallbackReply × S
  after_session previous path (err e, s) = (login_failed session_store_failed none path, s)
  after_session none path (ok token, s) = (logged_in token path, s)
  after_session (some p) path (ok token, s) = after_revocation token path (plane.revoke_session p s)

  abbrev pub after_user :
      (previous : Option Text)
      → (now : ℕ) → ReturnPath
      → Either AuthError Text × S
      → CallbackReply × S
  after_user previous now path (err e, s) = (login_failed identity_store_failed none path, s)
  after_user previous now path (ok user, s) =
      after_session previous path (plane.create_session user (now + session_ttl_ms) s)

  abbrev pub after_exchange :
      (previous : Option Text)
      → (now : ℕ) → ReturnPath
      → Either OidcFailure OidcIdentity
      → S
      → CallbackReply × S
  after_exchange previous now path (err e) s =
      (login_failed oidc_exchange_failed (some (oidc_failure_details e)) path, s)
  after_exchange previous now path (ok identity) s =
      after_user previous now path (plane.find_or_create_user identity s)

  -- The answer of the exchange counts if the provider has reported no error and has given a code.
  abbrev pub after_provider :
      (error code previous : Option Text)
      → (now : ℕ) → ReturnPath
      → Either OidcFailure OidcIdentity
      → S
      → CallbackReply × S
  after_provider (some e) code previous now path answer s =
      (login_failed provider_rejected none path, s)
  after_provider none none previous now path answer s =
      (login_failed authorization_code_missing none path, s)
  after_provider none (some c) previous now path answer s =
      after_exchange previous now path answer s

  -- `exchange` is the provider's for one callback URL, on the state, the nonce and the code verifier.
  module _ (exchange : (state nonce code_verifier : Text) → Either OidcFailure OidcIdentity) where
    abbrev pub after_attempt :
        CallbackQuery
        → (previous : Option Text) → (now : ℕ) → Either AuthError (Option Attempt) × S
        → CallbackReply × S
    after_attempt q previous now (err e, s) = (login_failed login_attempt_store_failed none root, s)
    after_attempt q previous now (ok none, s) =
        (login_failed login_attempt_unavailable none root, s)
    after_attempt q previous now (ok (some a), s) =
        after_provider q.error q.code previous now a.return_path
          (exchange q.state a.nonce a.code_verifier) s

    abbrev pub callback_with :
        Either FailureReason CallbackQuery → WebRequest → (now : ℕ) → S → CallbackReply × S
    callback_with (err reason) request now s = (login_failed reason none root, s)
    callback_with (ok q) request now s =
        if is_given request.login_cookie q.state
        then after_attempt q request.session_cookie now (plane.consume_login_attempt q.state s)
        else (login_failed callback_state_invalid none root, s)

  -- `GET /v1/auth/callback` with the query string `search`, which `parse_query` reads. The exchange of the
  -- provider is given the URL of the callback with this query, in which the code is.
  unfoldable pub callback :
      (exchange : CallbackUrl
        → (state nonce code_verifier : Text) → Either OidcFailure OidcIdentity)
      → (parse_query : Text → Query) → (public_origin search : Text) → WebRequest
      → (now : ℕ) → S
      → CallbackReply × S
  callback exchange parse_query public_origin search request now s =
      let q = parse_query search in
      callback_with (exchange (callback_url public_origin search))
        (login_callback_schema q.state q.code q.error) request now s

  -- `authorizationUrl` gives the protocol and the address of the provider's page.
  abbrev pub after_login : (url state : Text) → Either AuthError (Unit {0}) × S → LoginReply × S
  after_login url state (ok _, s) = (redirected url state, s)
  after_login url state (err e, s) = (login_unavailable, s)

  -- `GET /v1/auth/login`, for a query that is `none` where it is refused.
  unfoldable pub login :
      (authorization_url : (state nonce code_verifier : Text) → Option (Url × Text))
      → (destination : Option (Option ReturnPath)) → (state nonce code_verifier : Text) → S
      → LoginReply × S
  login authorization_url none state nonce verifier s = (invalid_request, s)
  login authorization_url (some path) state nonce verifier s =
      elim (authorization_url state nonce verifier) [
        | none ↦ (login_unavailable, s)
        | some url ↦
            if text_eq url.0.protocol (text "https:")
            then after_login url.1 state (
                plane.create_login_attempt
                  (record {
                    state = state;
                    code_verifier = verifier;
                    nonce = nonce;
                    return_path = or_else path root;
                  })
                  s)
            else (login_unavailable, s)
      ]
