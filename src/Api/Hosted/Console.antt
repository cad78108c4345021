-- ===== src/Api/Hosted/Console.antt =====
-- Who passes the session requirement of apps/api/src/hosted-auth.ts.
use spectro.Prelude.{
  ◌≡◌, refl, ap, Bool, true, false, not, ◌&&◌, Option, none, some, if◌then◌else◌, arith, Text,
  text_eq_refl, Either, ok, err, ok_injective,
}
use spectro.Api.Auth.{AuthError}
use spectro.Api.Hosted.{is_given-some, ControlPlane, HostedOptions, WebRequest, csrf_invalid}
use spectro.Api.Hosted.Guard.{
  require_same_origin_csrf, with_principal, with_token, require_console_session, session_for,
  session_with, session,
}

module _ {ℓ} {S : Type ℓ} (plane : ControlPlane S) (hmac : (secret credential : Text) → Text)
    (options : HostedOptions) where
  -- The request comes from the console's origin and carries the CSRF token of its session.
  abbrev pub IsVerified : WebRequest → (token : Text) → Type 0
  IsVerified request token =
      (request.origin ≡ some options.public_origin)
      × (request.csrf_header ≡ some (hmac options.csrf_secret token))

  require_same_origin_csrf-IsVerified :
      (request : WebRequest) (token : Text)
      → require_same_origin_csrf plane hmac options request token ≡ true
      → IsVerified request token
  unfolding require_same_origin_csrf
  require_same_origin_csrf-IsVerified request token h = (
    is_given-some request.origin options.public_origin (ground (arith, h)),
    is_given-some request.csrf_header (hmac options.csrf_secret token) (ground (arith, h)),
  )

  if-verified :
      (verify checked : Bool) (user given : Text)
      → (if verify && not checked then err csrf_invalid else ok user) ≡ ok given
      → (user ≡ given) × (verify ≡ true → checked ≡ true)
  if-verified true true user given h = (ok_injective user given h, λ _. refl)
  if-verified true false user given h = cc
  if-verified false checked user given h = (ok_injective user given h, λ e. cc)

  with_principal-ok :
      (r : Either AuthError (Option Text)) (verify : Bool) (request : WebRequest)
      (token user : Text)
      → with_principal plane hmac options r verify request token ≡ ok user
      → (r ≡ ok (some user)) × (verify ≡ true → IsVerified request token)
  with_principal-ok (err e) verify request token user h = cc
  with_principal-ok (ok none) verify request token user h = cc
  with_principal-ok (ok (some u)) verify request token user h =
      let (same, checked) =
        if-verified verify (require_same_origin_csrf plane hmac options request token) u user h in
      (
        ap (λ x. ok (some x)) same,
        λ v. require_same_origin_csrf-IsVerified request token (checked v),
      )

  with_token-ok :
      (cookie : Option Text) (verify : Bool) (request : WebRequest) (user : Text) (s : S)
      → with_token plane hmac options cookie verify request s ≡ ok user
      → (token : Text) × (cookie ≡ some token)
        × (plane.resolve_session token s ≡ ok (some user))
        × (verify ≡ true → IsVerified request token)
  with_token-ok none verify request user s h = cc
  with_token-ok (some token) verify request user s h =
      let (is, checked) =
        with_principal-ok (plane.resolve_session token s) verify request token user h in
      (token, refl, is, checked)

  -- A request acts for a user only if its session cookie resolves to that user and, where the request is
  -- to be verified, it comes from the console's origin with the CSRF token of that session.
  pub require_console_session_lem :
      (request : WebRequest) (verify : Bool) (user : Text) (s : S)
      → require_console_session plane hmac options request verify s ≡ ok user
      → (token : Text) × (request.session_cookie ≡ some token)
        × (plane.resolve_session token s ≡ ok (some user))
        × (verify ≡ true → IsVerified request token)
  unfolding require_console_session
  require_console_session_lem request verify user s h =
      with_token-ok request.session_cookie verify request user s h

  session_for-ok :
      (r : Either AuthError (Option Text)) (token user csrf : Text)
      → session_for plane hmac options r token ≡ ok (user, csrf)
      → (r ≡ ok (some user)) × (hmac options.csrf_secret token ≡ csrf)
  session_for-ok (err e) token user csrf h = cc
  session_for-ok (ok none) token user csrf h = cc
  session_for-ok (ok (some u)) token user csrf h = (cc, cc)

  session_with-accepted :
      (cookie : Option Text) (request : WebRequest) (user csrf : Text) (s : S)
      → session_with plane hmac options cookie s ≡ ok (user, csrf)
      → with_token plane hmac options cookie true
          (record request { origin = some options.public_origin; csrf_header = some csrf })
          s
        ≡ ok user
  unfolding require_same_origin_csrf
  session_with-accepted none request user csrf s h = cc
  session_with-accepted (some token) request user csrf s h =
      let (is, same) = session_for-ok (plane.resolve_session token s) token user csrf h in
      rw (is, same, text_eq_refl options.public_origin, text_eq_refl csrf) refl

  -- The CSRF token that the session route gives out is accepted: a request of that session from the
  -- console's origin that carries it acts for the user of the session.
  pub session-require_console_session :
      (request : WebRequest) (user csrf : Text) (s : S)
      → session plane hmac options request s ≡ ok (user, csrf)
      → require_console_session plane hmac options
          (record request { origin = some options.public_origin; csrf_header = some csrf })
          true
          s
        ≡ ok user
  unfolding session require_console_session
  session-require_console_session request user csrf s h =
      session_with-accepted request.session_cookie request user csrf s h
