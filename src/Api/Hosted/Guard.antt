-- ===== src/Api/Hosted/Guard.antt =====
-- The session requirement, the session route and the sign-out of apps/api/src/hosted-auth.ts.
use spectro.Prelude.{Bool, not, ◌&&◌, Option, none, some, if◌then◌else◌, Text, Either, ok, err}
use spectro.Api.Auth.{AuthError}
use spectro.Api.Hosted.{
  ControlPlane, HostedOptions, WebRequest, Refused, is_given, unauthorized, csrf_invalid,
  authorization_unavailable,
}

module _ {ℓ} {S : Type ℓ} (plane : ControlPlane S) where
  -- `hmac` is HMAC-SHA-256 of the prefixed credential, in base64url.
  module _ (hmac : (secret credential : Text) → Text) (options : HostedOptions) where
    unfoldable pub require_same_origin_csrf : WebRequest → (token : Text) → Bool
    require_same_origin_csrf request token =
        is_given request.origin options.public_origin
        && is_given request.csrf_header (hmac options.csrf_secret token)

    abbrev pub with_principal :
        Either AuthError (Option Text)
        → (verify_csrf : Bool) → WebRequest
        → (token : Text) → Either Refused Text
    with_principal (err e) verify request token = err authorization_unavailable
    with_principal (ok none) verify request token = err unauthorized
    with_principal (ok (some user)) verify request token =
        if verify && not (require_same_origin_csrf request token) then err csrf_invalid else ok user

    abbrev pub with_token :
        Option Text → (verify_csrf : Bool) → WebRequest → S → Either Refused Text
    with_token none verify request s = err unauthorized
    with_token (some token) verify request s =
        with_principal (plane.resolve_session token s) verify request token

    unfoldable pub require_console_session :
        WebRequest → (verify_csrf : Bool) → S → Either Refused Text
    require_console_session request verify s = with_token request.session_cookie verify request s

    abbrev pub session_for :
        Either AuthError (Option Text) → (token : Text) → Either Refused (Text × Text)
    session_for (err e) token = err authorization_unavailable
    session_for (ok none) token = err unauthorized
    session_for (ok (some user)) token = ok (user, hmac options.csrf_secret token)

    abbrev pub session_with : Option Text → S → Either Refused (Text × Text)
    session_with none s = err unauthorized
    session_with (some token) s = session_for (plane.resolve_session token s) token

    -- `GET /v1/auth/session`: the user and the CSRF token.
    unfoldable pub session : WebRequest → S → Either Refused (Text × Text)
    session request s = session_with request.session_cookie s

    abbrev pub after_logout : Either AuthError (Unit {0}) × S → Either Refused (Unit {0}) × S
    after_logout (ok u, s) = (ok u, s)
    after_logout (err e, s) = (err authorization_unavailable, s)

    abbrev pub logout_with : Option Text → WebRequest → S → Either Refused (Unit {0}) × S
    logout_with none request s = (err unauthorized, s)
    logout_with (some token) request s =
        if require_same_origin_csrf request token
        then after_logout (plane.revoke_session token s)
        else (err csrf_invalid, s)

    -- `POST /v1/auth/logout`
    unfoldable pub logout : WebRequest → S → Either Refused (Unit {0}) × S
    logout request s = logout_with request.session_cookie request s
