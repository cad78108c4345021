-- ===== src/Ingest/Laws.antt =====
-- What the handler of `POST /v1/envelope`, apps/ingest/src/app.ts, has checked when it accepts.
use spectro.Prelude.{
  refl, ok_injective, ◌≡◌, sym, subst, ◌∙◌, ◌⊎◌, inl, inr, ℕ, ◌≤◌, Bool, true, false, not, Option,
  none, some, List, [], ◌∷◌, arith, ltb, length, any, Text, text_eq_iff, All, Either, ok, err,
  >>=-eq-ok, require-then, required-then,
}
use spectro.Protocol.Json.{Json}
use spectro.Protocol.Event.{SpectroEvent, Envelope, ByteLength, max_event_bytes, max_envelope_bytes}
use spectro.Protocol.Depth.{
  is_json_depth_within, max_envelope_structure_depth, fits, is_json_depth_within_lem,
}
use spectro.Ingest.{
  Reply, reply_to, IngestWriteKeyGrant, Authorizer, EventStore, Request, Refusal, accepted, refused,
  is_out_of_scope, authorize, check_request, respond, post_envelope, unauthorized, invalid_nesting,
  invalid_envelope, admission_unavailable, envelope_too_large, event_too_large,
  project_scope_mismatch,
}

abbrev pub InScope : Option IngestWriteKeyGrant → SpectroEvent → Type 0
InScope none e = Unit
InScope (some g) e = (e.context.project ≡ g.project_id) × (e.context.environment ≡ g.environment)

All-not-any :
    (p : SpectroEvent → Bool) (P : SpectroEvent → Type 0)
    → ((e : SpectroEvent) → p e ≡ false → P e)
    → (es : List SpectroEvent) → not (any p es) ≡ true
    → All P es
All-not-any p P f [] h = tt
All-not-any p P f (e ∷ es) h = (f e (ground arith), All-not-any p P f es (ground arith))

InScope-of :
    (g : Option IngestWriteKeyGrant) (e : SpectroEvent) → is_out_of_scope g e ≡ false → InScope g e
InScope-of none e h = tt
InScope-of (some g) e h = (
  (text_eq_iff e.context.project g.project_id).0 (ground arith),
  (text_eq_iff e.context.environment g.environment).0 (ground arith),
)

module _ (authorizer : Authorizer) (bytes : ByteLength) (body_bytes : Json → ℕ)
    (validate : Json → Option Envelope) where
  -- A request that passes every check, with its envelope.
  pub record Passes (request : Request) (envelope : Envelope) : Type 0 where
    pub key : Text
    pub grant : Option IngestWriteKeyGrant
    pub given : request.key ≡ some key
    pub short : length key ≤ 128
    pub authorized : authorize authorizer key request.origin ≡ ok grant
    pub shallow : fits max_envelope_structure_depth request.body ≡ true
    pub bounded : body_bytes request.body ≤ max_envelope_bytes
    pub valid : validate request.body ≡ some envelope
    pub small : All (λ e. bytes.event e ≤ max_event_bytes) envelope.items
    pub scoped : All (InScope grant) envelope.items

  check_request-Passes :
      (request : Request) (envelope : Envelope)
      → check_request authorizer bytes body_bytes validate request ≡ ok envelope
      → Passes request envelope
  unfolding check_request
  check_request-Passes request envelope h =
      let (key, given, h1) = required-then request.key unauthorized _ h in
      let (short, h2) = require-then (not (ltb 128 (length key))) unauthorized _ h1 in
      let (grant, authorized, h3) = >>=-eq-ok (authorize authorizer key request.origin) _ h2 in
      let (shallow, h4) =
        require-then (is_json_depth_within request.body max_envelope_structure_depth 0)
          invalid_nesting _ h3 in
      let (bounded, h5) =
        require-then (not (ltb max_envelope_bytes (body_bytes request.body))) envelope_too_large _
          h4 in
      let (e, valid, h6) = required-then (validate request.body) invalid_envelope _ h5 in
      let (small, h7) =
        require-then (not (any (λ e. ltb max_event_bytes (bytes.event e)) e.items)) event_too_large
          _ h6 in
      let (scoped, h8) =
        require-then (not (any (is_out_of_scope grant) e.items)) project_scope_mismatch _ h7 in
      subst (Passes request) (ok_injective e envelope h8) (record {
        key = key;
        grant = grant;
        given = given;
        short = ground (arith, short);
        authorized = authorized;
        shallow =
            sym (is_json_depth_within_lem request.body max_envelope_structure_depth 0) ∙ shallow;
        bounded = ground (arith, bounded);
        valid = valid;
        small =
            All-not-any (λ e. ltb max_event_bytes (bytes.event e)) _ (λ e h. ground arith) e.items
              small;
        scoped = All-not-any (is_out_of_scope grant) _ (InScope-of grant) e.items scoped;
      })

module _ {ℓ} {S : Type ℓ} (store : EventStore S) (authorizer : Authorizer) (bytes : ByteLength)
    (body_bytes : Json → ℕ) (validate : Json → Option Envelope) where
  -- A request that passes the checks, and the answer and the store after the call of the store.
  abbrev pub Reaches : Request → (before : S) → (returned : Bool) → (n : ℕ) → (after : S) → Type ℓ
  Reaches request before returned n after =
      (e : Envelope) × Passes authorizer bytes body_bytes validate request e
      × (store.append e before ≡ (returned, after))
      × (n ≡ length e.items)

  -- How the handler replies, and with what store.
  abbrev pub Replies : Request → (before : S) → Reply × S → Type ℓ
  Replies request before r =
      ((n : ℕ) × (after : S) × (r ≡ (accepted n, after)) × Reaches request before true n after)
      ⊎ ((n : ℕ) × (after : S) × (r ≡ (refused admission_unavailable, after))
          × Reaches request before false n after)
      ⊎ ((refusal : Refusal) × (check_request authorizer bytes body_bytes validate request
            ≡ err refusal)
          × (r ≡ (refused refusal, before)))

  reply_to-Replies :
      (request : Request) (s : S) (e : Envelope) (o : Bool × S)
      → Passes authorizer bytes body_bytes validate request e
      → store.append e s ≡ o
      → Replies request s (reply_to e o)
  reply_to-Replies request s e (true, t) p h = inl (length e.items, t, refl, (e, p, h, refl))
  reply_to-Replies request s e (false, t) p h = inr (inl (length e.items, t, refl, (e, p, h, refl)))

  respond-Replies :
      (request : Request) (s : S) (o : Either Refusal Envelope)
      → check_request authorizer bytes body_bytes validate request ≡ o
      → Replies request s (respond store authorizer bytes body_bytes validate o s)
  respond-Replies request s (ok e) h =
      reply_to-Replies request s e _
        (check_request-Passes authorizer bytes body_bytes validate request e h) refl
  respond-Replies request s (err refusal) h = inr (inr (refusal, h, refl))

  -- The handler of `POST /v1/envelope` calls the store only if the key has at most 128 characters and
  -- is authorised for the origin, the body nests at most 16 deep, has at most 1 MiB and is a valid
  -- envelope, every event has at most 64 KiB, and every event is in the scope of its write key. If the
  -- store then returns, the reply is 202 with the number of the envelope's events. If it throws, the
  -- reply is that the admission is unavailable, and the store is what that call has left. Without a
  -- call of the store, the reply is an error and the store is as it was.
  pub post_envelope_lem :
      (request : Request) (s : S)
      → Replies request s (post_envelope store authorizer bytes body_bytes validate request s)
  unfolding post_envelope
  post_envelope_lem request s = respond-Replies request s _ refl
