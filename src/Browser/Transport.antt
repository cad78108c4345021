-- ===== src/Browser/Transport.antt =====
-- packages/browser/src/transport.ts: how an envelope is sent. `fetch` is a parameter, on the envelope
-- and the keepalive flag; its answer `none` is an error that it throws.
use spectro.Prelude.{
  none, some, ◌<◌, true, false, ℕ, ◌≤◌, ◌≡◌, ◌⊎◌, Bool, true, false, not, ◌&&◌, Option, List, map,
  ltb, Perm, Either, require, required, ◌>>=◌, ◌>>◌,
}
use spectro.Protocol.Event.{
  SpectroEvent, Envelope, ByteLength, QueuedEventRecord, max_envelope_bytes,
}
use spectro.Core.Client.{FlushOptions, Client, Setting, sending}
use spectro.Core.Client.Flush.{max_keepalive_envelope_bytes, FlushResult}

pub data TransportError : Type 0 where
  envelope_too_large keepalive_too_large not_sent rejected invalid_response : TransportError

-- `is_ok` is a status of 200 to 299; `accepted` is `none` if it is no number.
pub record Response : Type 0 where
  pub is_ok : Bool
  pub accepted : Option ℕ

module _ (bytes : ByteLength) where
  -- The two size tests.
  abbrev pub check_size : Envelope → (keepalive : Bool) → Either TransportError (Unit {0})
  check_size e keepalive = do
    require (not (ltb max_envelope_bytes (bytes.envelope e))) envelope_too_large
    require (not (keepalive && ltb max_keepalive_envelope_bytes (bytes.envelope e)))
        keepalive_too_large

  unfoldable pub send :
      (fetch : Envelope → Bool → Option Response)
      → Envelope
      → (keepalive : Bool) → Either TransportError ℕ
  send fetch e keepalive = do
    check_size e keepalive
    response ← required (fetch e keepalive) not_sent
    require response.is_ok rejected
    required response.accepted invalid_response

-- The envelope that `flushOnce` of packages/core/src/client.ts makes of drained records; the clock is
-- read again for it.
abbrev pub sent_envelope : (sent_at : ℕ) → List QueuedEventRecord → Envelope
sent_envelope sent_at rs = record { sent_at = sent_at; items = map (λ r. r.event) rs }

-- What is left of `send` behind the size tests.
abbrev pub request_and_read :
    (fetch : Envelope → Bool → Option Response)
    → Envelope
    → (keepalive : Bool) → Either TransportError ℕ
request_and_read fetch e keepalive = do
  response ← required (fetch e keepalive) not_sent
  require response.is_ok rejected
  required response.accepted invalid_response

-- A time in milliseconds of 13 digits, from 2001 to 2286.
abbrev pub IsTime : ℕ → Type 0
IsTime n = (1000000000000 ≤ n) × (n < 10000000000000)

module _ (s : Setting)
    (unordered : (n : ℕ) (xs ys : List SpectroEvent)
      → Perm xs ys
      → s.bytes.envelope (record { sent_at = n; items = xs })
        ≡ s.bytes.envelope (record { sent_at = n; items = ys }))
    (untimed : (n m : ℕ) (xs : List SpectroEvent)
      → IsTime n
      → IsTime m
      → s.bytes.envelope (record { sent_at = n; items = xs })
        ≡ s.bytes.envelope (record { sent_at = m; items = xs })) where
  -- How a flush goes on from its start.
  abbrev pub Sends :
      (fetch : Envelope → Bool → Option Response)
      → FlushOptions
      → (sent_at : ℕ) → Option FlushResult × Client
      → Type 0
  Sends fetch o sent_at r =
      ((result : FlushResult) × (r.0 ≡ some result))
      ⊎ ((rs : List QueuedEventRecord) × (r.0 ≡ none)
          × (r.1.flight ≡ sending o rs)
          × (send s.bytes fetch (sent_envelope sent_at rs) o.keepalive
              ≡ request_and_read fetch (sent_envelope sent_at rs) o.keepalive))
