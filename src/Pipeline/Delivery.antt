-- ===== src/Pipeline/Delivery.antt =====
-- What the admission sink publishes, the admission source reads: packages/pipeline.
use spectro.Prelude.{leb, true, ◌≡◌, refl, ◌≢◌, ℕ, some, [], ◌∷◌, Text, text_eq_refl, ok}
use spectro.Protocol.Json.{Json}
use spectro.Protocol.Event.{Envelope}
use spectro.Pipeline.{
  Codec, create_envelope_id, create_admission_metadata, publish, decode_admitted_envelope, identity,
  admit_message, max_safe_integer,
}

module _ {ℓ} {D : Type ℓ} (codec : Codec D) where
  identity-some : (s : Text) → s ≢ [] → identity codec (some s) ≡ some s
  identity-some [] h = absurd (h refl)
  identity-some (c ∷ s) h = refl

  -- The message that the sink publishes for an envelope is read back as that envelope, with its
  -- identity and the time of its admission. The envelope's encoding is assumed to be parsed and
  -- validated as the envelope, its identity not to be empty, and the time to be a safe integer that is
  -- read back from its header.
  admit_message-publish :
      (e : Envelope) (now : ℕ) (raw : Json)
      → codec.parse (codec.encode e) ≡ some raw
      → codec.validate raw ≡ some e
      → create_envelope_id codec e ≢ []
      → codec.number (some (codec.show now)) ≡ some now
      → leb now max_safe_integer ≡ true
      → admit_message codec (publish codec e now)
        ≡ ok (record { metadata = create_admission_metadata codec e now; envelope = e })
  unfolding admit_message decode_admitted_envelope publish create_admission_metadata
  admit_message-publish e now raw parsed valid named timed safe =
      rw
        (
          identity-some (create_envelope_id codec e) named,
          parsed,
          valid,
          text_eq_refl (create_envelope_id codec e),
          timed,
          safe,
        )
        refl
