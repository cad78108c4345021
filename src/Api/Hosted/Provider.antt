-- ===== src/Api/Hosted/Provider.antt =====
-- The provider of apps/api/src/hosted-auth.ts: the claims that `exchange` accepts, and what is reported
-- of its failures.
use spectro.Prelude.{
  ℕ, Bool, false, ◌&&◌, Option, none, some, List, [], ◌∷◌, leb, if◌then◌else◌, any, length, Text,
  text, text_eq,
}
use spectro.Api.Auth.{OidcIdentity}

-- The error classes that `oidcFailureDetails` tells apart, with the code and the status they carry.
pub data OidcFailure : Type 0 where
  response_body_error : (error : Text) → (status : ℕ) → OidcFailure
  authorization_response_error : (error : Text) → OidcFailure
  client_error_thrown type_error other_error : OidcFailure

pub data FailureCategory : Type 0 where
  oauth_response client_error transport_or_validation unexpected : FailureCategory

pub record FailureDetails : Type 0 where
  pub category : FailureCategory
  pub oauth_error_code : Option Text
  pub http_status : Option ℕ

abbrev pub oauth_error_codes : List Text
oauth_error_codes =
    text "access_denied"
    ∷ text "invalid_client"
    ∷ text "invalid_grant"
    ∷ text "invalid_request"
    ∷ text "invalid_scope"
    ∷ text "server_error"
    ∷ text "temporarily_unavailable"
    ∷ text "unauthorized_client"
    ∷ text "unsupported_grant_type"
    ∷ []

unfoldable pub safe_oauth_error_code : Text → Text
safe_oauth_error_code value = if any (text_eq value) oauth_error_codes then value else text "other"

unfoldable pub oidc_failure_details : OidcFailure → FailureDetails
oidc_failure_details (response_body_error error status) = record {
  category = oauth_response;
  oauth_error_code = some (safe_oauth_error_code error);
  http_status = some status;
}
oidc_failure_details (authorization_response_error error) = record {
  category = oauth_response;
  oauth_error_code = some (safe_oauth_error_code error);
  http_status = none;
}
oidc_failure_details client_error_thrown = record {
  category = client_error;
  oauth_error_code = none;
  http_status = none;
}
oidc_failure_details type_error = record {
  category = transport_or_validation;
  oauth_error_code = none;
  http_status = none;
}
oidc_failure_details other_error = record {
  category = unexpected;
  oauth_error_code = none;
  http_status = none;
}

pub data Audience : Type 0 where
  single : Text → Audience
  several : List Text → Audience

-- The claims of an ID token; an email that is no string is `none`.
pub record Claims : Type 0 where
  pub iss : Text
  pub sub : Text
  pub aud : Audience
  pub email : Option Text
  pub email_verified : Bool

abbrev pub is_audience : (client_id : Text) → Audience → Bool
is_audience client_id (single a) = text_eq a client_id
is_audience client_id (several audiences) = any (λ a. text_eq a client_id) audiences

abbrev oidc_identity : Claims → Option Text → Bool → OidcIdentity
oidc_identity c email verified = record {
  issuer = c.iss;
  subject = c.sub;
  email = email;
  email_verified = verified;
}

abbrev identity_of : Claims → Option Text → OidcIdentity
identity_of c none = oidc_identity c none false
identity_of c (some e) =
    if leb (length e) 320
    then oidc_identity c (some e) c.email_verified
    else oidc_identity c none false

-- `exchange` from the claims on; `none` are the errors it throws.
unfoldable pub accept_claims : (issuer client_id : Text) → Option Claims → Option OidcIdentity
accept_claims issuer client_id none = none
accept_claims issuer client_id (some c) =
    if text_eq c.iss issuer && is_audience client_id c.aud
    then some (identity_of c c.email)
    else none
