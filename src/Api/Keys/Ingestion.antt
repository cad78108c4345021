-- ===== src/Api/Keys/Ingestion.antt =====
-- The ingestion handler of apps/ingest on the keys that the management API keeps.
use spectro.Prelude.{
  ℕ, ◌≡◌, ◌⊎◌, refl, sym, ap, subst, ◌∙◌, Bool, true, false, Option, none, some, List, [], ◌∷◌,
  find, All, ltb, length, if◌then◌else◌, arith, Bool-cases, inl, inr, Text, text_eq_iff, ok,
  require-then, ok_injective,
}
use mathlib.Core.Option.{some-injective}
use spectro.Protocol.Json.{Json}
use spectro.Protocol.Event.{Envelope, ByteLength}
use spectro.Api.Tables.{WriteKey, Tables}
use spectro.Ingest.{
  IngestWriteKeyGrant, Lookup, granted, unknown, unavailable, write_keys, EventStore, Request,
  Refusal, accepted, refused, unauthorized, origin_denied, allows_origin, look_up, post_envelope,
  check_request, Reply, admission_unavailable,
}
use spectro.Ingest.Laws.{InScope, Reaches, post_envelope_lem}
use spectro.Api.Keys.{
  OriginParts, ProjectScope, NewKey, KeySummary, create_key, revoke_key, is_usable, is_keyed,
  grant_of, answer, is_write_key, parse_allowed_origins, authorize_key,
}
use spectro.Api.Keys.Revoked.{KeySteps, revoke_key-final}

look_up-ok :
    (l : Lookup) (origin : Option Text) (g : Option IngestWriteKeyGrant)
    → look_up l origin ≡ ok g
    → (grant : IngestWriteKeyGrant) × (l ≡ granted grant)
      × (allows_origin grant origin ≡ true)
      × (g ≡ some grant)
look_up-ok unavailable origin g h = cc
look_up-ok unknown origin g h = cc
look_up-ok (granted grant) origin g h =
    let (allowed_, h1) = require-then (allows_origin grant origin) origin_denied _ h in
    (grant, refl, allowed_, sym (ok_injective _ _ h1))

find_first :
    (p : WriteKey → Bool) (ks : List WriteKey) (k : WriteKey) → find p ks ≡ some k → p k ≡ true
find_first p [] k h = cc
find_first p (x ∷ xs) k h = elim (Bool-cases (p x)) [
  | inl e ↦
      subst (λ y. p y ≡ true)
        (some-injective x k (sym (ap (λ b. if b then some x else find p xs) e) ∙ h)) e
  | inr e ↦ find_first p xs k (sym (ap (λ b. if b then some x else find p xs) e) ∙ h)
]

module _ (hash : Text → Text) (parse_url : Text → Option OriginParts) where
  if-granted :
      (b : Bool) (k : WriteKey) (g : IngestWriteKeyGrant)
      → (if b then granted (grant_of hash parse_url k) else unavailable) ≡ granted g
      → grant_of hash parse_url k ≡ g
  if-granted true k g h = cc
  if-granted false k g h = cc

  answer-granted :
      (o : Option WriteKey) (g : IngestWriteKeyGrant)
      → answer hash parse_url o ≡ granted g
      → (k : WriteKey) × (o ≡ some k) × (grant_of hash parse_url k ≡ g)
  answer-granted none g h = cc
  answer-granted (some k) g h =
      (k, refl, if-granted (parse_allowed_origins hash parse_url k.allowed_origins) k g h)

  authorize_key-granted :
      (t : Tables) (key : Text) (g : IngestWriteKeyGrant)
      → authorize_key hash parse_url t key ≡ granted g
      → (k : WriteKey) × (find (is_keyed hash parse_url key) t.write_keys ≡ some k)
        × (grant_of hash parse_url k ≡ g)
  unfolding authorize_key
  authorize_key-granted t key g h = elim (Bool-cases (is_write_key key)) [
    | inl e ↦ answer-granted (find (is_keyed hash parse_url key) t.write_keys) g (
        sym (
          ap
            (λ b.
              if b
              then answer hash parse_url (find (is_keyed hash parse_url key) t.write_keys)
              else unknown)
            e)
        ∙ h)
    | inr e ↦ absurd (
        not_granted g (
          sym (
            ap
              (λ b.
                if b
                then answer hash parse_url (find (is_keyed hash parse_url key) t.write_keys)
                else unknown)
              e)
          ∙ h))
  ]
    where
      not_granted : (g : IngestWriteKeyGrant) → unknown ≡ granted g → ⊥
      not_granted g h = cc

  module _ {ℓ} {S : Type ℓ} (store : EventStore S) (bytes : ByteLength) (body_bytes : Json → ℕ)
      (validate : Json → Option Envelope) (request : Request) (s : S) where
    -- What stands behind a request for which the store is called: a key of the table that is not
    -- revoked. `returned` says whether the store returns.
    abbrev pub IsKeyed : Tables → (returned : Bool) → (after : S) → Type ℓ
    IsKeyed t returned after =
        (key : Text) × (k : WriteKey) × (e : Envelope) × (request.key ≡ some key)
        × (find (is_keyed hash parse_url key) t.write_keys ≡ some k)
        × (k.verifier ≡ hash key)
        × (is_usable k ≡ true)
        × (allows_origin (grant_of hash parse_url k) request.origin ≡ true)
        × (validate request.body ≡ some e)
        × All (InScope (some (grant_of hash parse_url k))) e.items
        × (store.append e s ≡ (returned, after))

    Reaches-IsKeyed :
        (t : Tables) (returned : Bool) (n : ℕ) (after : S)
        → Reaches store
            (write_keys (authorize_key hash parse_url t))
            bytes
            body_bytes
            validate
            request
            s
            returned
            n
            after
        → IsKeyed t returned after
    Reaches-IsKeyed t returned n after (e, a, appended, _) =
        let (g, is, allowed_, same) =
          look_up-ok (authorize_key hash parse_url t a.key) request.origin a.grant a.authorized in
        let (k, found, gk) = authorize_key-granted t a.key g is in
        let live = find_first (is_keyed hash parse_url a.key) t.write_keys k found in
        (
          a.key,
          k,
          e,
          a.given,
          found,
          (text_eq_iff k.verifier (hash a.key)).0 (ground (arith, live)),
          ground (arith, live),
          subst (λ x. allows_origin x request.origin ≡ true) (sym gk) allowed_,
          a.valid,
          subst (λ x. All (InScope x) e.items) (same ∙ ap some (sym gk)) a.scoped,
          appended,
        )

    -- A reply, and the store after it, of ingestion on the keys of the tables.
    abbrev pub RepliesKeyed : Tables → Reply × S → Type ℓ
    RepliesKeyed t r =
        ((n : ℕ) × (stored : S) × (r ≡ (accepted n, stored)) × IsKeyed t true stored)
        ⊎ ((left : S) × (r ≡ (refused admission_unavailable, left)) × IsKeyed t false left)
        ⊎ ((refusal : Refusal) × (r ≡ (refused refusal, s)))

    -- Ingestion on the keys of the management API: a request is refused, and the store is as it was, or
    -- it carries a key that is in the table and not revoked, its origin is one that the key allows, and
    -- every event of the envelope that is handed to the store is of the key's project and environment.
    -- It is then accepted if the store returns, and refused, with what the store has left, if it throws.
    pub post_envelope-IsKeyed :
        (t : Tables)
        → RepliesKeyed t (
            post_envelope store
              (write_keys (authorize_key hash parse_url t))
              bytes
              body_bytes
              validate
              request
              s)
    post_envelope-IsKeyed t =
        elim (post_envelope_lem store (write_keys (authorize_key hash parse_url t)) bytes body_bytes
          validate request s) [
            | inl (n, stored, is, a) ↦ inl (n, stored, is, Reaches-IsKeyed t true n stored a)
            | inr (inl (n, left, is, a)) ↦ inr (inl (left, is, Reaches-IsKeyed t false n left a))
            | inr (inr (refusal, _, is)) ↦ inr (inr (refusal, is))
          ]

    unknown_key :
        (t : Tables) (key : Text)
        → request.key ≡ some key
        → authorize_key hash parse_url t key ≡ unknown
        → post_envelope store
            (write_keys (authorize_key hash parse_url t))
            bytes
            body_bytes
            validate
            request
            s
          ≡ (refused unauthorized, s)
    unfolding post_envelope check_request
    unknown_key t key is lost = elim (Bool-cases (ltb 128 (length key))) [
      | inl e ↦ rw (is, e) refl
      | inr e ↦ rw (is, e, lost) refl
    ]

    -- Every request with a key that has been revoked is answered that the key is unknown, and nothing is
    -- appended, whatever keys are created and revoked before and after.
    pub revoke_key-refused :
        (input again : ProjectScope) (new : NewKey) (id key : Text) (now at : ℕ) (m : KeySummary)
        (t u v w x : Tables)
        → create_key hash input new id key now t ≡ ok (m, u)
        → KeySteps hash u v
        → again.project_id ≡ input.project_id
        → again.environment ≡ input.environment
        → revoke_key again id at v ≡ ok w
        → KeySteps hash w x
        → request.key ≡ some key
        → post_envelope store
            (write_keys (authorize_key hash parse_url x))
            bytes
            body_bytes
            validate
            request
            s
          ≡ (refused unauthorized, s)
    revoke_key-refused input again new id key now at m t u v w x made before project environment
          revoked after carried =
        unknown_key x key carried (
          revoke_key-final hash parse_url input again new id key now at m t u v w x made before
            project environment revoked after)
