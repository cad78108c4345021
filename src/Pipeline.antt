-- ===== src/Pipeline.antt =====
-- packages/pipeline: admission.ts, and the sink and the source of jetstream.ts.
pub mod Delivery
use spectro.Prelude.{
  ◌≡◌, refl, ℕ, Bool, true, false, not, ◌&&◌, Option, none, some, List, [], ◌∷◌, ◌++◌, map, take,
  ltb, leb, length, Text, text, text_eq, Either, ok, err, ◌>>=◌, ◌>>◌, require, required,
}
use spectro.Protocol.Json.{Json}
use spectro.Protocol.Event.{Envelope}

pub record AdmissionMetadata : Type 0 where
  pub envelope_id : Text
  pub admitted_at : ℕ

pub record AdmittedEnvelope : Type 0 where
  pub metadata : AdmissionMetadata
  pub open metadata use *
  pub envelope : Envelope

-- The errors of `decodeAdmittedEnvelope`, and that of `metadataFromMessage`.
pub data InvalidAdmitted : Type 0 where
  not_json not_protocol wrong_identity invalid_timestamp missing_identity : InvalidAdmitted

-- A message of the stream, with the headers Spectro-Envelope-Id and Spectro-Admitted-At.
pub record Message {ℓ} (D : Type ℓ) : Type ℓ where
  pub data_ : D
  pub envelope_id : Option Text
  pub admitted_at : Option Text

abbrev pub max_safe_integer : ℕ
max_safe_integer = 9007199254740991

abbrev pub join : Text → List Text → Text
join separator [] = []
join separator (s ∷ []) = s
join separator (s ∷ t ∷ ts) = s ++ separator ++ join separator (t ∷ ts)

abbrev pub newline : Text
newline = text "\n"

-- The platform: `digest` is SHA-256 in hexadecimal, `show` is `String` of a number, `number` is `Number`
-- of a header, `none` where that is no integer or a negative one, `encode` and `parse` are JSON in UTF-8, and `validate` is the data of `validateEnvelope`.
pub record Codec {ℓ} (D : Type ℓ) : Type ℓ where
  pub digest : Text → Text
  pub show : ℕ → Text
  pub number : Option Text → Option ℕ
  pub encode : Envelope → D
  pub parse : D → Option Json
  pub validate : Json → Option Envelope

module _ {ℓ} {D : Type ℓ} (codec : Codec D) where
  abbrev pub create_envelope_id : Envelope → Text
  create_envelope_id e = take 32 (
      codec.digest
        (join newline (text "envelope-v1" ∷ codec.show e.sent_at ∷ map (λ i. i.id) e.items)))

  unfoldable pub create_admission_metadata : Envelope → (now : ℕ) → AdmissionMetadata
  create_admission_metadata e now = record { envelope_id = create_envelope_id e; admitted_at = now }

  -- The message that `append` publishes, under the identity of the envelope.
  unfoldable pub publish : Envelope → (now : ℕ) → Message D
  publish e now =
      let metadata = create_admission_metadata e now in
      record {
        data_ = codec.encode e;
        envelope_id = some metadata.envelope_id;
        admitted_at = some (codec.show metadata.admitted_at);
      }

  unfoldable pub decode_admitted_envelope :
      D → (envelope_id : Text) → (admitted_at : Option ℕ) → Either InvalidAdmitted AdmittedEnvelope
  decode_admitted_envelope data_ envelope_id admitted_at = do
    raw ← required (codec.parse data_) not_json
    e ← required (codec.validate raw) not_protocol
    require (text_eq (create_envelope_id e) envelope_id) wrong_identity
    at ← required admitted_at invalid_timestamp
    require (leb at max_safe_integer) invalid_timestamp
    ok (record { metadata = record { envelope_id = envelope_id; admitted_at = at }; envelope = e })

  -- An empty header counts as missing.
  abbrev pub identity : Option Text → Option Text
  identity none = none
  identity (some []) = none
  identity (some (c ∷ s)) = some (c ∷ s)

  -- `next` on a message: the admitted envelope, or the error, for which the message is terminated.
  unfoldable pub admit_message : Message D → Either InvalidAdmitted AdmittedEnvelope
  admit_message m = do
    envelope_id ← required (identity m.envelope_id) missing_identity
    decode_admitted_envelope m.data_ envelope_id (codec.number m.admitted_at)
