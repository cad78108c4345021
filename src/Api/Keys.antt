-- ===== src/Api/Keys.antt =====
-- apps/api/src/postgres-project-write-keys.ts, and the authorizer of ingestion that reads its rows,
-- apps/ingest/src/postgres-write-key-authorizer.ts. A transaction that throws leaves the tables.
pub mod Grants
pub mod Revoked
pub mod Ingestion
use spectro.Prelude.{
  ℕ, Bool, true, false, not, ◌&&◌, ◌||◌, Option, none, some, List, [], ◌∷◌, ◌++◌, map, reverse, ltb,
  leb, ◌==◌, if◌then◌else◌, is_some, length, take, drop, filter, find, any, sort_by, Text, text,
  text_eq, is_token, Either, ok, err, require, required, ◌>>=◌, ◌>>◌,
}
use spectro.Api.Roles.{project_manage}
use spectro.Api.Members.{is_active}
use spectro.Api.Tables.{
  Project, WriteKey, WorkspaceAction, api_key_created, api_key_revoked, WorkspaceEntry, Tables,
}
use spectro.Api.Auth.{grants, allowed}
use spectro.Ingest.{IngestWriteKeyGrant, Lookup, unavailable, unknown, granted}

pub data KeyError : Type 0 where
  access_denied not_found key_exists : KeyError

pub record ProjectScope : Type 0 where
  pub user_id : Text
  pub project_id : Text
  pub environment : Text

unfoldable pub require_project_admin : ProjectScope → Tables → Either KeyError (Unit {0})
require_project_admin input t =
    require
      (is_active input.user_id t.members.people
        && allowed project_manage (
            find (grants input.project_id input.environment input.user_id t) t.members.memberships))
      access_denied

abbrev pub is_project : Text → Project → Bool
is_project id p = text_eq p.id id

abbrev pub in_scope : ProjectScope → WriteKey → Bool
in_scope input k = text_eq k.project_id input.project_id && text_eq k.environment input.environment

-- `summarize`
pub record KeySummary : Type 0 where
  pub id : Text
  pub environment : Text
  pub label : Text
  pub key_hint : Text
  pub allowed_origins : List Text
  pub created_at : ℕ
  pub revoked_at : Option ℕ

abbrev pub summarize : WriteKey → KeySummary
summarize k = record {
  id = k.id;
  environment = k.environment;
  label = k.label;
  key_hint = k.key_hint;
  allowed_origins = k.allowed_origins;
  created_at = k.created_at;
  revoked_at = k.revoked_at;
}

-- `ORDER BY created_at DESC, id`, `precedes` being the order of the database's texts.
abbrev pub is_newer : (precedes : Text → Text → Bool) → WriteKey → WriteKey → Bool
is_newer precedes a b =
    ltb b.created_at a.created_at || (a.created_at == b.created_at && precedes a.id b.id)

unfoldable pub list_keys :
    (precedes : Text → Text → Bool) → ProjectScope → Tables → Either KeyError (List KeySummary)
list_keys precedes input t = do
  require_project_admin input t
  ok (map summarize (sort_by (is_newer precedes) (filter (in_scope input) t.write_keys)))

-- `${key.slice(0, 12)}…${key.slice(-4)}`
abbrev pub hint : Text → Text
hint key = take 12 key ++ (8230 ∷ []) ++ reverse (take 4 (reverse key))

pub record NewKey : Type 0 where
  pub label : Text
  pub allowed_origins : List Text

abbrev pub log_key : WorkspaceAction → ProjectScope → Project → Text → Tables → Tables
log_key action input p id t = record t {
  workspace_log =
      t.workspace_log
      ++ record {
        organization_id = p.organization_id;
        actor_id = input.user_id;
        action = action;
        resource_id = id;
      }
        ∷ [];
}

-- A key that is not revoked.
abbrev pub is_usable : WriteKey → Bool
is_usable k = not (is_some k.revoked_at)

-- `hash` is SHA-256; `id` and `key` are the random ones.
module _ (hash : Text → Text) where
  abbrev pub key_row : ProjectScope → NewKey → (id key : Text) → (now : ℕ) → WriteKey
  key_row input new id key now = record {
    id = id;
    project_id = input.project_id;
    environment = input.environment;
    label = new.label;
    verifier = hash key;
    key_hint = hint key;
    allowed_origins = new.allowed_origins;
    created_by = input.user_id;
    created_at = now;
    revoked_at = none;
  }

  -- The index `verifier` is unique, as is the primary key.
  abbrev pub conflicts : (id key : Text) → WriteKey → Bool
  conflicts id key k = text_eq k.id id || text_eq k.verifier (hash key)

  unfoldable pub create_key :
      ProjectScope
      → NewKey
      → (id key : Text) → (now : ℕ) → Tables
      → Either KeyError (KeySummary × Tables)
  create_key input new id key now t = do
    require_project_admin input t
    p ← required (find (is_project input.project_id) t.projects) access_denied
    require (not (any (conflicts id key) t.write_keys)) key_exists
    ok (
      summarize (key_row input new id key now),
      log_key api_key_created input p id
          (record t { write_keys = key_row input new id key now ∷ t.write_keys }),
    )

abbrev pub names_key : ProjectScope → (key_id : Text) → WriteKey → Bool
names_key input id k = text_eq k.id id && in_scope input k

abbrev pub revoke_key_row : ProjectScope → (key_id : Text) → (now : ℕ) → WriteKey → WriteKey
revoke_key_row input id now k =
    if names_key input id k && is_usable k then record k { revoked_at = some now } else k

-- The branches on whether the `UPDATE` returned a row.
abbrev pub revoke_named :
    ProjectScope → Project → (key_id : Text) → (now : ℕ) → Tables → Either KeyError Tables
revoke_named input p id now t =
    if any (λ k. names_key input id k && is_usable k) t.write_keys
    then ok (
        log_key api_key_revoked input p id
          (record t { write_keys = map (revoke_key_row input id now) t.write_keys }))
    else if any (names_key input id) t.write_keys
    then ok t
    else err not_found

unfoldable pub revoke_key :
    ProjectScope → (key_id : Text) → (now : ℕ) → Tables → Either KeyError Tables
revoke_key input id now t = do
  require_project_admin input t
  p ← required (find (is_project input.project_id) t.projects) access_denied
  revoke_named input p id now t

-- The parts of a `URL` that the origin policy reads.
pub record OriginParts : Type 0 where
  pub origin : Text
  pub protocol : Text
  pub hostname : Text

abbrev pub local_hosts : List Text
local_hosts = text "localhost" ∷ text "127.0.0.1" ∷ text "[::1]" ∷ []

abbrev pub is_allowed_url : Text → Option OriginParts → Bool
is_allowed_url origin none = false
is_allowed_url origin (some u) =
    text_eq u.origin origin
    && (text_eq u.protocol (text "https:")
        || (text_eq u.protocol (text "http:") && any (text_eq u.hostname) local_hosts))

-- `/^spk_[A-Za-z0-9_-]{43}$/`
unfoldable pub is_write_key : Text → Bool
is_write_key key = text_eq (take 4 key) (text "spk_") && is_token (drop 4 key)

module _ (hash : Text → Text) (parse_url : Text → Option OriginParts) where
  -- `parseAllowedOrigins` on an array of texts: whether it throws nothing.
  unfoldable pub parse_allowed_origins : List Text → Bool
  parse_allowed_origins origins =
      leb (length origins) 20 && not (any (λ o. not (is_allowed_url o (parse_url o))) origins)

  abbrev pub grant_of : WriteKey → IngestWriteKeyGrant
  grant_of k = record {
    project_id = k.project_id;
    environment = k.environment;
    allowed_origins = k.allowed_origins;
  }

  abbrev pub answer : Option WriteKey → Lookup
  answer none = unknown
  answer (some k) =
      if parse_allowed_origins k.allowed_origins then granted (grant_of k) else unavailable

  abbrev pub is_keyed : (key : Text) → WriteKey → Bool
  is_keyed key k = text_eq k.verifier (hash key) && is_usable k

  unfoldable pub authorize_key : Tables → (key : Text) → Lookup
  authorize_key t key =
      if is_write_key key then answer (find (is_keyed key) t.write_keys) else unknown
