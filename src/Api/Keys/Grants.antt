-- ===== src/Api/Keys/Grants.antt =====
-- Who may create a key in apps/api/src/postgres-project-write-keys.ts, and what the key then grants.
use spectro.Prelude.{
  ℕ, ◌≡◌, refl, sym, ap, ◌∙◌, Bool, true, false, not, ◌&&◌, Option, some, List, [], ◌∷◌, find, any,
  arith, Bool-cases, if◌then◌else◌, inl, inr, Text, text_eq_refl, ok, require-then, required-then,
  ok_injective,
}
use spectro.Api.Roles.{organization_role_allows, project_manage}
use spectro.Api.Members.{Membership, is_active}
use spectro.Api.Tables.{Tables}
use spectro.Api.Auth.{grants, allowed}
use spectro.Ingest.{granted}
use spectro.Api.Keys.{
  access_denied, key_exists, ProjectScope, KeySummary, NewKey, OriginParts, require_project_admin,
  is_project, create_key, key_row, conflicts, is_write_key, parse_allowed_origins, authorize_key,
}

-- The user is enabled, and has in an organisation a role that may manage its projects, among which is
-- the project with the environment.
abbrev pub ManagesProject : ProjectScope → Tables → Type 0
ManagesProject input t =
    (is_active input.user_id t.members.people ≡ true)
    × (m : Membership) × (grants input.project_id input.environment input.user_id t m ≡ true)
    × (organization_role_allows m.role project_manage ≡ true)

pub found_grants :
    (p : Membership → Bool) (ms : List Membership)
    → allowed project_manage (find p ms) ≡ true
    → (m : Membership) × (p m ≡ true) × (organization_role_allows m.role project_manage ≡ true)
found_grants p [] h = cc
found_grants p (m ∷ ms) h = elim (Bool-cases (p m)) [
  | inl e ↦ (m, e, sym (ap (λ b. allowed project_manage (if b then some m else find p ms)) e) ∙ h)
  | inr e ↦
      found_grants p ms
        (sym (ap (λ b. allowed project_manage (if b then some m else find p ms)) e) ∙ h)
]

require_project_admin-ManagesProject :
    (input : ProjectScope) (t : Tables)
    → (is_active input.user_id t.members.people
        && allowed project_manage (
            find (grants input.project_id input.environment input.user_id t) t.members.memberships))
      ≡ true
    → ManagesProject input t
require_project_admin-ManagesProject input t h =
    let p = grants input.project_id input.environment input.user_id t in
    let (m, granted_, manages) = found_grants p t.members.memberships (ground (arith, h)) in
    (ground (arith, h), m, granted_, manages)

module _ (hash : Text → Text) where
  pub create_key-ok :
      (input : ProjectScope) (new : NewKey) (id key : Text) (now : ℕ) (t u : Tables)
      (m : KeySummary)
      → create_key hash input new id key now t ≡ ok (m, u)
      → ManagesProject input t
        × (any (conflicts hash id key) t.write_keys ≡ false)
        × (u.write_keys ≡ key_row hash input new id key now ∷ t.write_keys)
  unfolding create_key require_project_admin
  create_key-ok input new id key now t u m h =
      let (admin, h1) = require-then _ access_denied _ h in
      let (p, _, h2) =
        required-then (find (is_project input.project_id) t.projects) access_denied _ h1 in
      let (free, h3) =
        require-then (not (any (conflicts hash id key) t.write_keys)) key_exists _ h2 in
      (
        require_project_admin-ManagesProject input t admin,
        ground (arith, free),
        sym (ap (λ r. r.1.write_keys) (ok_injective _ _ h3)),
      )

  -- A key is created only by an enabled owner or admin of the project's organisation, and on the tables
  -- that this leaves ingestion grants it the project, the environment and the origins it was created
  -- for, if the key has the form of one and the origins satisfy the policy.
  pub create_key-authorize_key :
      (parse_url : Text → Option OriginParts) (input : ProjectScope) (new : NewKey) (id key : Text)
      (now : ℕ) (t u : Tables) (m : KeySummary)
      → create_key hash input new id key now t ≡ ok (m, u)
      → is_write_key key ≡ true
      → parse_allowed_origins hash parse_url new.allowed_origins ≡ true
      → ManagesProject input t
        × (authorize_key hash parse_url u key
            ≡ granted (record {
              project_id = input.project_id;
              environment = input.environment;
              allowed_origins = new.allowed_origins;
            }))
  unfolding authorize_key
  create_key-authorize_key parse_url input new id key now t u m h formed allowed_ =
      let (admin, _, is) = create_key-ok input new id key now t u m h in
      (admin, rw (formed, is, text_eq_refl (hash key), allowed_) refl)
