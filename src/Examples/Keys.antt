-- ===== src/Examples/Keys.antt =====
-- The theorems on write keys, on a project with one administrator.
use spectro.Prelude.{
  any, ◌≡◌, refl, true, false, none, some, [], ◌∷◌, Text, text, text_eq, is_token, ok, Option,
}
use spectro.Protocol.Json.{Json, null}
use spectro.Protocol.Event.{Envelope}
use spectro.Api.Roles.{admin, owner, organization_role_allows}
use spectro.Api.Tables.{
  Tables, api_key_created, api_key_revoked, organization_created, project_created,
}
use spectro.Ingest.{Request, in_memory, granted, refused, unauthorized, write_keys, post_envelope}
use spectro.Api.Keys.{
  OriginParts, ProjectScope, NewKey, KeySummary, require_project_admin, create_key, revoke_key,
  key_row, summarize, is_write_key, parse_allowed_origins, authorize_key,
}
use spectro.Api.Keys.Grants.{ManagesProject, create_key-authorize_key}
use spectro.Api.Keys.Revoked.{here}
use spectro.Api.Keys.Ingestion.{RepliesKeyed, post_envelope-IsKeyed, revoke_key-refused}
use spectro.Api.Members.Owners.{has_active_owner}
use spectro.Api.Workspaces.{
  OrganizationSummary, ProjectSummary, create_organization, create_project, require_membership,
  log_workspace, founded,
}
use spectro.Api.Workspaces.Founding.{create_organization-has_active_owner}
use spectro.Examples.Samples.{click, bytes}

abbrev same : Text → Text
same t = t

abbrev no_url : Text → Option OriginParts
no_url t = none

abbrev shop : Tables
shop = record {
  members = record {
    organizations = [];
    people =
        record { id = text "usr_1"; email = none; email_verified = false; disabled = false } ∷ [];
    memberships =
        record { organization_id = text "org_1"; user_id = text "usr_1"; role = admin } ∷ [];
    invitations = [];
    audit_log = [];
  };
  login_attempts = [];
  identities = [];
  sessions = [];
  projects = record { id = text "shop"; organization_id = text "org_1"; name = text "Shop" } ∷ [];
  environments = record { project_id = text "shop"; name = text "production" } ∷ [];
  write_keys = [];
  workspace_log = [];
}

abbrev scope : ProjectScope
scope = record { user_id = text "usr_1"; project_id = text "shop"; environment = text "production" }

abbrev new_key : NewKey
new_key = record { label = text "web"; allowed_origins = [] }

abbrev key : Text
key = text "spk_0123456789012345678901234567890123456789abc"

abbrev summary : KeySummary
summary = summarize (key_row same scope new_key (text "key_1") key 10)

abbrev keyed : Tables
keyed = record shop {
  write_keys = key_row same scope new_key (text "key_1") key 10 ∷ [];
  workspace_log =
      record {
        organization_id = text "org_1";
        actor_id = text "usr_1";
        action = api_key_created;
        resource_id = text "key_1";
      }
      ∷ [];
}

keyed_run : create_key same scope new_key (text "key_1") key 10 shop ≡ ok (summary, keyed)
unfolding create_key require_project_admin text_eq organization_role_allows
keyed_run = refl

key-IsWriteKey : is_write_key key ≡ true
unfolding is_write_key is_token text_eq
key-IsWriteKey = refl

no_origins : parse_allowed_origins same no_url [] ≡ true
unfolding parse_allowed_origins
no_origins = refl

create_key-authorize_key_example :
    ManagesProject scope shop
    × (authorize_key same no_url keyed key
        ≡ granted (record {
          project_id = text "shop";
          environment = text "production";
          allowed_origins = [];
        }))
create_key-authorize_key_example =
    create_key-authorize_key same no_url scope new_key (text "key_1") key 10 shop keyed summary
      keyed_run key-IsWriteKey no_origins

abbrev sent : Envelope
sent = record { sent_at = 7000; items = click ∷ [] }

abbrev read : Json → Option Envelope
read j = some sent

abbrev request : Request
request = record { key = some key; origin = none; body = null }

post_envelope-IsKeyed_example :
    RepliesKeyed same no_url in_memory bytes
      (λ j. 900)
      read
      request
      []
      keyed
      (post_envelope in_memory
        (write_keys (authorize_key same no_url keyed))
        bytes
        (λ j. 900)
        read
        request
        [])
post_envelope-IsKeyed_example =
    post_envelope-IsKeyed same no_url in_memory bytes (λ j. 900) read request [] keyed

abbrev unkeyed : Tables
unkeyed = record keyed {
  write_keys =
      record (key_row same scope new_key (text "key_1") key 10) { revoked_at = some 20 } ∷ [];
  workspace_log =
      record {
        organization_id = text "org_1";
        actor_id = text "usr_1";
        action = api_key_created;
        resource_id = text "key_1";
      }
      ∷ record {
        organization_id = text "org_1";
        actor_id = text "usr_1";
        action = api_key_revoked;
        resource_id = text "key_1";
      }
      ∷ [];
}

unkeyed_run : revoke_key scope (text "key_1") 20 keyed ≡ ok unkeyed
unfolding revoke_key require_project_admin text_eq organization_role_allows
unkeyed_run = refl

revoke_key-refused_example :
    post_envelope in_memory
      (write_keys (authorize_key same no_url unkeyed))
      bytes
      (λ j. 900)
      read
      request
      []
    ≡ (refused unauthorized, [])
revoke_key-refused_example =
    revoke_key-refused same no_url in_memory bytes (λ j. 900) read request [] scope scope new_key
      (text "key_1") key 10 20 summary shop keyed keyed unkeyed unkeyed keyed_run here refl refl
      unkeyed_run here refl

abbrev second_org : OrganizationSummary
second_org = record { id = text "org_2"; name = text "New"; role = owner }

abbrev founded_tables : Tables
founded_tables =
    log_workspace organization_created (text "org_2") (text "usr_1") (text "org_2")
      (record shop { members = founded (text "usr_1") (text "New") (text "org_2") shop.members })

founding_run :
    create_organization (text "usr_1") (text "New") (text "org_2") shop
    ≡ ok (second_org, founded_tables)
unfolding create_organization text_eq
founding_run = refl

create_organization-has_active_owner_example :
    (has_active_owner founded_tables.members (text "org_2") ≡ true)
    × ((o : Text)
        → has_active_owner shop.members o ≡ true
        → has_active_owner founded_tables.members o ≡ true)
create_organization-has_active_owner_example =
    create_organization-has_active_owner (text "usr_1") (text "New") (text "org_2") shop
      founded_tables second_org founding_run

abbrev new_project : ProjectSummary
new_project = record {
  id = text "prj_2";
  organization_id = text "org_1";
  name = text "Site";
  environments = text "live" ∷ text "test" ∷ [];
}

abbrev with_project : Tables
with_project =
    log_workspace project_created (text "org_1") (text "usr_1") (text "prj_2") (record shop {
      projects =
          record { id = text "prj_2"; organization_id = text "org_1"; name = text "Site" }
          ∷ shop.projects;
      environments =
          record { project_id = text "prj_2"; name = text "live" }
          ∷ record { project_id = text "prj_2"; name = text "test" }
          ∷ shop.environments;
    })

project_run :
    create_project
      (text "usr_1")
      (text "org_1")
      (text "Site")
      (text "live" ∷ text "test" ∷ [])
      (text "prj_2")
      shop
    ≡ ok (new_project, with_project)
unfolding create_project require_membership text_eq organization_role_allows
project_run = refl

test_named : any (text_eq (text "test")) (text "live" ∷ text "test" ∷ []) ≡ true
unfolding text_eq
test_named = refl
