-- ===== src/Ingest.antt =====
-- apps/ingest/src/app.ts: the handler of `POST /v1/envelope`, with the store of store.ts and the key
-- authorizer of write-key-authorizer.ts.
pub mod Laws
use spectro.Prelude.{
  ◌≡◌, ℕ, ◌+◌, Bool, true, false, not, ◌&&◌, ◌||◌, Option, none, some, List, [], ◌++◌, map, leb,
  ltb, length, any, Text, text_eq, Either, ok, err, ◌>>=◌, ◌>>◌, require, required,
}
use spectro.Protocol.Json.{Json}
use spectro.Protocol.Event.{SpectroEvent, Envelope, ByteLength, max_event_bytes, max_envelope_bytes}
use spectro.Protocol.Depth.{is_json_depth_within, max_envelope_structure_depth}

pub record IngestWriteKeyGrant : Type 0 where
  pub project_id : Text
  pub environment : Text
  pub allowed_origins : List Text

-- The answer of `authorize`, `unavailable` being an error that it throws.
pub data Lookup : Type 0 where
  unavailable unknown : Lookup
  granted : IngestWriteKeyGrant → Lookup

-- Exactly one of the two authorizers is configured.
pub data Authorizer : Type 0 where
  api_key : Text → Authorizer
  write_keys : (Text → Lookup) → Authorizer

-- `EventStore`: whether `append` returns, or throws, and what the store is afterwards. One that throws
-- may have stored the envelope all the same.
pub record EventStore {ℓ} (S : Type ℓ) : Type ℓ where
  pub append : Envelope → S → Bool × S

-- `InMemoryEventStore`
abbrev pub in_memory : EventStore (List SpectroEvent)
in_memory = record { append = λ e events. (true, events ++ e.items) }

-- `key` is the header x-spectro-key.
pub record Request : Type 0 where
  pub key : Option Text
  pub origin : Option Text
  pub body : Json

pub data Refusal : Type 0 where
  unauthorized authorization_unavailable origin_denied invalid_nesting envelope_too_large
        invalid_envelope event_too_large project_scope_mismatch admission_unavailable :
      Refusal

abbrev pub status_code : Refusal → ℕ
status_code unauthorized = 401
status_code authorization_unavailable = 503
status_code origin_denied = 403
status_code invalid_nesting = 400
status_code envelope_too_large = 413
status_code invalid_envelope = 400
status_code event_too_large = 413
status_code project_scope_mismatch = 403
status_code admission_unavailable = 503

-- A reply 202 with the number of events, or an error.
pub data Reply : Type 0 where
  accepted : ℕ → Reply
  refused : Refusal → Reply

abbrev pub is_in : Option Text → List Text → Bool
is_in none origins = false
is_in (some origin) origins = any (λ o. text_eq o origin) origins

-- An empty list allows every origin.
abbrev pub allows_origin : IngestWriteKeyGrant → Option Text → Bool
allows_origin grant origin =
    not (ltb 0 (length grant.allowed_origins)) || is_in origin grant.allowed_origins

abbrev pub look_up : Lookup → Option Text → Either Refusal (Option IngestWriteKeyGrant)
look_up unavailable origin = err authorization_unavailable
look_up unknown origin = err unauthorized
look_up (granted grant) origin = do
  require (allows_origin grant origin) origin_denied
  ok (some grant)

-- The grant that scopes the events, `none` for the single API key.
abbrev pub authorize : Authorizer → Text → Option Text → Either Refusal (Option IngestWriteKeyGrant)
authorize (api_key k) key origin = do require (text_eq key k) unauthorized; ok none
authorize (write_keys find_grant) key origin = look_up (find_grant key) origin

abbrev pub is_out_of_scope : Option IngestWriteKeyGrant → SpectroEvent → Bool
is_out_of_scope none e = false
is_out_of_scope (some grant) e =
    not (text_eq e.context.project grant.project_id)
    || not (text_eq e.context.environment grant.environment)

-- `body_bytes` is `serializedByteLength` of a body, and `validate` the data of `validateEnvelope`,
-- which rests on the Ajv validators.
module _ (authorizer : Authorizer) (bytes : ByteLength) (body_bytes : Json → ℕ)
    (validate : Json → Option Envelope) where
  -- The handler up to the call of the store.
  unfoldable pub check_request : Request → Either Refusal Envelope
  check_request request = do
    key ← required request.key unauthorized
    require (not (ltb 128 (length key))) unauthorized
    grant ← authorize authorizer key request.origin
    require (is_json_depth_within request.body max_envelope_structure_depth 0) invalid_nesting
    require (not (ltb max_envelope_bytes (body_bytes request.body))) envelope_too_large
    data_ ← required (validate request.body) invalid_envelope
    require (not (any (λ e. ltb max_event_bytes (bytes.event e)) data_.items)) event_too_large
    require (not (any (is_out_of_scope grant) data_.items)) project_scope_mismatch
    ok data_

abbrev pub reply_to {ℓ} : {S : Type ℓ} → Envelope → Bool × S → Reply × S
reply_to e (true, stored) = (accepted (length e.items), stored)
reply_to e (false, left) = (refused admission_unavailable, left)

module _ {ℓ} {S : Type ℓ} (store : EventStore S) (authorizer : Authorizer) (bytes : ByteLength)
    (body_bytes : Json → ℕ) (validate : Json → Option Envelope) where
  abbrev pub respond : Either Refusal Envelope → S → Reply × S
  respond (ok e) s = reply_to e (store.append e s)
  respond (err refusal) s = (refused refusal, s)

  unfoldable pub post_envelope : Request → S → Reply × S
  post_envelope request s = respond (check_request authorizer bytes body_bytes validate request) s
