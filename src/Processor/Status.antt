-- ===== src/Processor/Status.antt =====
-- The state of the pipeline as operators see it: `summarizeAdmissionPipeline` of
-- packages/pipeline/src/operations.ts and `inspectPipelineStatus` of
-- services/processor/src/operations.ts.
use spectro.Prelude.{
  ◌≡◌, refl, ℕ, ◌+◌, ◌*◌, ◌≤◌, ◌<◌, ◌⊎◌, inl, inr, Bool, true, false, not, ◌&&◌, ◌||◌, Option, none,
  some, List, [], ◌∷◌, ◌++◌, arith, ltb, leb, if◌then◌else◌, is_some, length, or_else, Text,
  Option-cases,
}

-- The answers of the stream and of the consumer.
pub record StreamStateSample : Type 0 where
  pub messages : ℕ
  pub bytes : ℕ
  pub first_ts : Text
  pub lost_bytes : Option ℕ
  pub max_bytes : ℕ

pub record ConsumerStateSample : Type 0 where
  pub num_pending : ℕ
  pub num_ack_pending : ℕ
  pub num_redelivered : ℕ
  pub max_deliver : Option ℕ
  pub delivered_sequence : ℕ
  pub ack_floor_sequence : ℕ

pub record AdmissionPipelineSnapshot : Type 0 where
  pub stream_stored_messages : ℕ
  pub stream_bytes : ℕ
  pub stream_max_bytes : ℕ
  pub oldest_stored_message_at : Option Text
  pub lost_bytes : ℕ
  pub consumer_pending : ℕ
  pub consumer_ack_pending : ℕ
  pub consumer_redelivered : ℕ
  pub consumer_max_deliver : Option ℕ
  pub consumer_delivered_sequence : ℕ
  pub consumer_acknowledged_sequence : ℕ

unfoldable pub summarize_admission_pipeline :
    StreamStateSample → ConsumerStateSample → AdmissionPipelineSnapshot
summarize_admission_pipeline stream consumer = record {
  stream_stored_messages = stream.messages;
  stream_bytes = stream.bytes;
  stream_max_bytes = stream.max_bytes;
  oldest_stored_message_at = if ltb 0 stream.messages then some stream.first_ts else none;
  lost_bytes = or_else stream.lost_bytes 0;
  consumer_pending = consumer.num_pending;
  consumer_ack_pending = consumer.num_ack_pending;
  consumer_redelivered = consumer.num_redelivered;
  consumer_max_deliver = consumer.max_deliver;
  consumer_delivered_sequence = consumer.delivered_sequence;
  consumer_acknowledged_sequence = consumer.ack_floor_sequence;
}

pub record PipelineStatusThresholds : Type 0 where
  pub max_stored_messages : ℕ
  pub max_oldest_message_age_ms : ℕ
  pub max_redelivered : ℕ

abbrev pub default_pipeline_status_thresholds : PipelineStatusThresholds
default_pipeline_status_thresholds = record {
  max_stored_messages = 1000;
  max_oldest_message_age_ms = 300000;
  max_redelivered = 10;
}

pub data PipelineStatusCode : Type 0 where
  nats_unavailable clickhouse_unavailable stream_data_lost stream_near_capacity
        stored_message_limit_exceeded oldest_message_age_exceeded redelivery_limit_exceeded
        invalid_oldest_message_timestamp :
      PipelineStatusCode

pub data Health : Type 0 where
  healthy degraded unavailable : Health

pub record PipelineStatus : Type 0 where
  pub status : Health
  pub jetstream : Option AdmissionPipelineSnapshot
  pub clickhouse_available : Bool
  pub codes : List PipelineStatusCode

abbrev code_if : Bool → PipelineStatusCode → List PipelineStatusCode
code_if true c = c ∷ []
code_if false c = []

-- `parse_date` is `Date.parse`, with `none` for a number that is not finite.
module _ (parse_date : Text → Option ℕ) (thresholds : PipelineStatusThresholds) (now : ℕ) where
  abbrev age_codes : Option ℕ → List PipelineStatusCode
  age_codes none = invalid_oldest_message_timestamp ∷ []
  age_codes (some oldest) =
      code_if (ltb (oldest + thresholds.max_oldest_message_age_ms) now) oldest_message_age_exceeded

  abbrev oldest_codes : Option Text → List PipelineStatusCode
  oldest_codes none = []
  oldest_codes (some at) = age_codes (parse_date at)

  -- The quotient of the bytes is at least 0.9.
  abbrev is_near_capacity : AdmissionPipelineSnapshot → Bool
  is_near_capacity s =
      ltb 0 s.stream_max_bytes && leb (9 * s.stream_max_bytes) (10 * s.stream_bytes)

  abbrev snapshot_codes : AdmissionPipelineSnapshot → List PipelineStatusCode
  snapshot_codes s =
      code_if (ltb 0 s.lost_bytes) stream_data_lost
      ++ (code_if (is_near_capacity s) stream_near_capacity
          ++ (code_if (ltb thresholds.max_stored_messages s.stream_stored_messages)
                stored_message_limit_exceeded
              ++ (code_if (ltb thresholds.max_redelivered s.consumer_redelivered)
                    redelivery_limit_exceeded
                  ++ oldest_codes s.oldest_stored_message_at)))

  abbrev status_codes : Option AdmissionPipelineSnapshot → Bool → List PipelineStatusCode
  status_codes snapshot clickhouse =
      code_if (not (is_some snapshot)) nats_unavailable
      ++ (code_if (not clickhouse) clickhouse_unavailable
          ++ elim snapshot [ none ↦ [] | some s ↦ snapshot_codes s ])

  -- `inspectPipelineStatus` with the settled answers of its ports: a snapshot unless the read has
  -- failed, and whether the database has answered.
  unfoldable pub inspect_pipeline_status : Option AdmissionPipelineSnapshot → Bool → PipelineStatus
  inspect_pipeline_status snapshot clickhouse =
      let codes = status_codes snapshot clickhouse in
      record {
        status =
            if not (is_some snapshot) || not clickhouse
            then unavailable
            else (if ltb 0 (length codes) then degraded else healthy);
        jetstream = snapshot;
        clickhouse_available = clickhouse;
        codes = codes;
      }

  -- The age of the oldest message is known and within the limit, or there is no message.
  abbrev pub IsFresh : Option Text → Type 0
  IsFresh o =
      (o ≡ none)
      ⊎ ((at : Text) × (t : ℕ) × (o ≡ some at)
          × (parse_date at ≡ some t)
          × (now ≤ t + thresholds.max_oldest_message_age_ms))

  oldest_codes-IsFresh : (o : Option Text) → length (oldest_codes o) ≡ 0 → IsFresh o
  oldest_codes-IsFresh none h = inl refl
  oldest_codes-IsFresh (some at) h = elim (Option-cases (parse_date at)) [
    | inl e ↦ ground arith
    | inr (t, e) ↦ inr (at, t, refl, e, ground arith)
  ]

  codes-none :
      (s : AdmissionPipelineSnapshot)
      → length (snapshot_codes s) ≡ 0
      → (s.lost_bytes ≡ 0)
        × (is_near_capacity s ≡ false)
        × (s.stream_stored_messages ≤ thresholds.max_stored_messages)
        × (s.consumer_redelivered ≤ thresholds.max_redelivered)
        × (length (oldest_codes s.oldest_stored_message_at) ≡ 0)
  codes-none s h = ground arith

  -- The status is `ok` only if the stream and the database have answered, no byte is lost, the
  -- stream is below nine tenths of its size if it has a limit, the numbers of stored and of
  -- redelivered messages are within their thresholds, and the oldest message is no older than its
  -- threshold.
  pub inspect_pipeline_status-healthy :
      (snapshot : Option AdmissionPipelineSnapshot) (clickhouse : Bool)
      → (inspect_pipeline_status snapshot clickhouse).status ≡ healthy
      → (clickhouse ≡ true)
        × ((s : AdmissionPipelineSnapshot) × (snapshot ≡ some s)
            × (s.lost_bytes ≡ 0)
            × ((s.stream_max_bytes ≡ 0) ⊎ (10 * s.stream_bytes < 9 * s.stream_max_bytes))
            × (s.stream_stored_messages ≤ thresholds.max_stored_messages)
            × (s.consumer_redelivered ≤ thresholds.max_redelivered)
            × IsFresh s.oldest_stored_message_at)
  unfolding inspect_pipeline_status
  inspect_pipeline_status-healthy none clickhouse h = ground arith
  inspect_pipeline_status-healthy (some s) false h = ground arith
  inspect_pipeline_status-healthy (some s) true h =
      let (lost, near, stored, again, old) = codes-none s (ground arith) in
      (
        refl,
        (
          s,
          refl,
          lost,
          ground arith,
          stored,
          again,
          oldest_codes-IsFresh s.oldest_stored_message_at old,
        ),
      )
