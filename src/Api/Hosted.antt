-- ===== src/Api/Hosted.antt =====
-- apps/api/src/hosted-auth.ts: the sign-in with OpenID Connect, the session requirement of the console
-- and its CSRF check. The control plane is a record of operations on a state; an error value is a
-- thrown error. What `reply.setCookie` and the diagnostics callback might throw is left out.
pub mod Provider
pub mod SignIn
pub mod Guard
pub mod Callback
pub mod Console
pub mod Plane
pub mod Replay
use spectro.Prelude.{
  ◌≡◌, ap, true, text_eq_iff, ℕ, ◌+◌, Bool, true, false, not, ◌&&◌, ◌||◌, Option, none, some, List,
  [], ◌∷◌, ltb, if◌then◌else◌, length, or_else, Text, text, text_eq, is_token, Either, ok, err,
  required, ◌>>=◌,
}
use spectro.Api.Tables.{ReturnPath, root}
use spectro.Api.Auth.{LoginInput, Attempt, OidcIdentity, AuthError}
use Provider.{OidcFailure, FailureDetails, oidc_failure_details}

abbrev pub session_ttl_ms : ℕ
session_ttl_ms = 604800000

pub data FailureReason : Type 0 where
  callback_state_invalid login_attempt_store_failed login_attempt_unavailable provider_rejected
        authorization_code_missing oidc_exchange_failed identity_store_failed session_store_failed
        previous_session_revocation_failed :
      FailureReason

-- The operations of the control plane that the handlers call.
pub record ControlPlane {ℓ} (S : Type ℓ) : Type ℓ where
  pub create_login_attempt : LoginInput → S → Either AuthError (Unit {0}) × S
  pub consume_login_attempt : Text → S → Either AuthError (Option Attempt) × S
  pub find_or_create_user : OidcIdentity → S → Either AuthError Text × S
  pub create_session : (user : Text) → (expires_at : ℕ) → S → Either AuthError Text × S
  pub resolve_session : Text → S → Either AuthError (Option Text)
  pub revoke_session : Text → S → Either AuthError (Unit {0}) × S

pub record HostedOptions : Type 0 where
  pub public_origin : Text
  pub csrf_secret : Text

pub record Url : Type 0 where
  pub protocol : Text
  pub origin : Text

-- The checks of `registerHostedAuth`.
unfoldable pub register_hosted_auth :
    (parse_url : Text → Option Url) (utf8_bytes : Text → ℕ) → HostedOptions → Option HostedOptions
register_hosted_auth parse_url utf8_bytes options = elim (parse_url options.public_origin) [
  | none ↦ none
  | some url ↦
      if not (text_eq url.protocol (text "https:"))
        || not (text_eq url.origin options.public_origin)
        || ltb (utf8_bytes options.csrf_secret) 32
      then none
      else some options
]

-- The parts of a request that the handlers read. A header that is repeated is no string.
pub record WebRequest : Type 0 where
  pub session_cookie : Option Text
  pub login_cookie : Option Text
  pub origin : Option Text
  pub csrf_header : Option Text

-- A query parameter: missing, no string, or a string.
pub data Param : Type 0 where
  missing : Param
  malformed : Param
  given : Text → Param

pub record CallbackQuery : Type 0 where
  pub state : Text
  pub code : Option Text
  pub error : Option Text

-- `z.string().min(1).optional()`; `none` is a failure.
abbrev pub optional_text : Param → Option (Option Text)
optional_text missing = some none
optional_text malformed = none
optional_text (given []) = none
optional_text (given (c ∷ s)) = some (some (c ∷ s))

abbrev pub state_text : Param → Option Text
state_text missing = none
state_text malformed = none
state_text (given s) = if is_token s then some s else none

-- `loginCallbackSchema.safeParse`, with the reason of a failure.
unfoldable pub login_callback_schema :
    (state code error : Param) → Either FailureReason CallbackQuery
login_callback_schema state code error = do
  s ← required (state_text state) callback_state_invalid
  c ← required (optional_text code) callback_state_invalid
  e ← required (optional_text error) callback_state_invalid
  ok (record { state = s; code = c; error = e })

-- The `URL` that is given to the provider's exchange.
pub record CallbackUrl : Type 0 where
  pub origin : Text
  pub path : Text
  pub search : Text

-- `callbackUrl`, for the query string of the request's URL.
abbrev pub callback_url : (public_origin search : Text) → CallbackUrl
callback_url public_origin search = record {
  origin = public_origin;
  path = text "/v1/auth/callback";
  search = search;
}

-- The parameters `state`, `code` and `error` of a query.
pub record Query : Type 0 where
  pub state : Param
  pub code : Param
  pub error : Param

pub data CallbackReply : Type 0 where
  login_failed : FailureReason → Option FailureDetails → ReturnPath → CallbackReply
  logged_in : (token : Text) → ReturnPath → CallbackReply

pub data LoginReply : Type 0 where
  invalid_request login_unavailable : LoginReply
  redirected : (url state : Text) → LoginReply

-- The errors of a request for the console: 401, 403 and 503.
pub data Refused : Type 0 where
  unauthorized csrf_invalid authorization_unavailable : Refused

-- `a === b` where `a` may be undefined
abbrev pub is_given : Option Text → Text → Bool
is_given none t = false
is_given (some s) t = text_eq s t

pub is_given-some : (o : Option Text) (t : Text) → is_given o t ≡ true → o ≡ some t
is_given-some none t h = cc
is_given-some (some u) t h = ap some ((text_eq_iff u t).0 h)
