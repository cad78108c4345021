-- ===== src/Api/Hosted/Plane.antt =====
-- The handlers of apps/api/src/hosted-auth.ts on the control plane of postgres-auth-control-plane.ts:
-- the session that a sign-out ends.
use spectro.Prelude.{
  ℕ, ◌≡◌, refl, sym, ap, ◌∙◌, subst, Bool, true, Option, none, some, Text, is_token, Either, ok,
  err, if-accepted,
}
use mathlib.Core.Option.{some-injective}
use spectro.Api.Tables.{Tables}
use spectro.Api.Auth.{
  AuthError, Attempt, create_login_attempt, consume_login_attempt, find_or_create_user,
  create_session, resolve_session, revoke_session,
}
use spectro.Api.Auth.Steps.{Steps}
use spectro.Api.Auth.Sessions.{revoke_session-final}
use spectro.Api.Hosted.{ControlPlane, HostedOptions, WebRequest, unauthorized, csrf_invalid}
use spectro.Api.Hosted.Guard.{
  logout_with, logout, with_token, require_console_session, require_same_origin_csrf,
}

-- What the clock and the random numbers give one request.
pub record Draw : Type 0 where
  pub now : ℕ
  pub fresh_user : Text
  pub fresh_token : Text

module _ (hash lower trim : Text → Text) where
  abbrev consumed : Option Attempt × Tables → Either AuthError (Option Attempt) × Tables
  consumed r = (ok r.0, r.1)

  abbrev pub postgres_plane : Draw → ControlPlane Tables
  postgres_plane d = record {
    create_login_attempt = λ input t. create_login_attempt hash input d.now t;
    consume_login_attempt = λ state t. consumed (consume_login_attempt hash state d.now t);
    find_or_create_user = λ identity t. find_or_create_user lower trim d.fresh_user identity t;
    create_session = λ user expires_at t. create_session hash d.fresh_token user expires_at d.now t;
    resolve_session = λ token t. ok (resolve_session hash token d.now t);
    revoke_session = λ token t. (ok tt, revoke_session hash token d.now t);
  }

  module _ (hmac : (secret credential : Text) → Text) (options : HostedOptions) where
    logout_with-ok :
        (d : Draw) (cookie : Option Text) (request : WebRequest) (token : Text) (t u : Tables)
        → cookie ≡ some token
        → logout_with (postgres_plane d) hmac options cookie request t ≡ (ok tt, u)
        → u ≡ revoke_session hash token d.now t
    logout_with-ok d none request token t u is h = cc
    logout_with-ok d (some x) request token t u is h =
        let (_, done) =
          if-accepted (require_same_origin_csrf (postgres_plane d) hmac options request x)
            csrf_invalid t (ok tt, revoke_session hash x d.now t) h in
        sym (ap (λ r. r.1) done)
        ∙ ap (λ y. revoke_session hash y d.now t) (some-injective x token is)

    with_token-none :
        (d : Draw) (cookie : Option Text) (verify : Bool) (request : WebRequest) (token : Text)
        (t : Tables)
        → cookie ≡ some token
        → resolve_session hash token d.now t ≡ none
        → with_token (postgres_plane d) hmac options cookie verify request t ≡ err unauthorized
    with_token-none d none verify request token t is gone = refl
    with_token-none d (some x) verify request token t is gone =
        let lost : resolve_session hash x d.now t ≡ none =
          ap (λ y. resolve_session hash y d.now t) (some-injective x token is) ∙ gone in
        rw lost refl

    -- After a sign-out that succeeded no request with the cookie of that session is let in, whatever
    -- calls follow it: it is answered that authentication is required.
    pub logout-final :
        (d e f : Draw) (request again : WebRequest) (verify : Bool) (token user given : Text)
        (expires_at : ℕ) (t u v w x : Tables)
        → is_token token ≡ true
        → create_session hash token user expires_at d.now t ≡ (ok given, u)
        → Steps hash lower trim u v
        → request.session_cookie ≡ some token
        → logout (postgres_plane e) hmac options request v ≡ (ok tt, w)
        → Steps hash lower trim w x
        → again.session_cookie ≡ some token
        → require_console_session (postgres_plane f) hmac options again verify x ≡ err unauthorized
    unfolding logout require_console_session
    logout-final d e f request again verify token user given expires_at t u v w x valid made before
          cookie out after same =
        let is = logout_with-ok e request.session_cookie request token v w cookie out in
        with_token-none f again.session_cookie verify again token x same (
          revoke_session-final hash lower trim token user given expires_at d.now e.now f.now t u v x
            valid made before (subst (λ y. Steps hash lower trim y x) is after))
