-- ===== src/Api/Workspaces.antt =====
-- apps/api/src/postgres-workspaces.ts: organisations and projects. A transaction that throws leaves the
-- tables; `precedes` is the order of the database's texts.
pub mod Founding
pub mod Pages
pub mod Order
pub mod Listing
use spectro.Prelude.{
  ℕ, suc, Bool, true, false, not, ◌&&◌, Option, none, some, List, [], ◌∷◌, ◌++◌, map, ltb,
  if◌then◌else◌, length, take, filter, find, any, sort_by, Text, text_eq, Either, ok, err, require,
  ◌>>=◌, ◌>>◌,
}
use spectro.Api.Roles.{OrganizationRole, OrganizationAction, owner, project_read, project_manage}
use spectro.Api.Members.{Membership, Organization, Database, is_active, is_key}
use spectro.Api.Tables.{
  Project, ProjectEnvironment, WorkspaceAction, organization_created, project_created, Tables,
}
use spectro.Api.Auth.{allowed}

pub data WorkspaceError : Type 0 where
  access_denied key_exists : WorkspaceError

pub record OrganizationSummary : Type 0 where
  pub id : Text
  pub name : Text
  pub role : OrganizationRole

pub record ProjectSummary : Type 0 where
  pub id : Text
  pub organization_id : Text
  pub name : Text
  pub environments : List Text

pub record WorkspacePage {ℓ} (A : Type ℓ) : Type ℓ where
  pub data_ : List A
  pub next_cursor : Option Text

abbrev pub last {ℓ} : {A : Type ℓ} → List A → Option A
last [] = none
last (x ∷ []) = some x
last (x ∷ y ∷ xs) = last (y ∷ xs)

-- The cursor of the page `data`, of which `more` says whether rows were left.
abbrev pub cursor_of {ℓ} : {A : Type ℓ} → (id : A → Text) → (more : Bool) → Option A → Option Text
cursor_of id true (some x) = some (id x)
cursor_of id _ _ = none

-- `page`, for rows of which `id` is the identifier.
unfoldable pub page {ℓ} : {A : Type ℓ} → (id : A → Text) → List A → (limit : ℕ) → WorkspacePage A
page id rows limit = record {
  data_ = take limit rows;
  next_cursor = cursor_of id (ltb limit (length rows)) (last (take limit rows));
}

abbrev pub is_member : (organization_id user_id : Text) → Tables → Membership → Bool
is_member o u t m = is_key o u m && is_active u t.members.people

unfoldable pub require_membership :
    (user_id organization_id : Text)
    → OrganizationAction
    → Tables
    → Either WorkspaceError (Unit {0})
require_membership u o action t =
    require (allowed action (find (is_member o u t) t.members.memberships)) access_denied

-- `id > cursor`, where no cursor is the empty text, which every identifier follows.
abbrev pub is_after_cursor : (precedes : Text → Text → Bool) → Option Text → Text → Bool
is_after_cursor precedes none id = true
is_after_cursor precedes (some c) id = precedes c id

-- The memberships of an enabled user, each with its organisation.
abbrev pub joined : Text → Tables → List Membership → List OrganizationSummary
joined u t [] = []
joined u t (m ∷ ms) =
    map (λ o. record { id = o.id; name = o.name; role = m.role })
      (filter
        (λ o. text_eq o.id m.organization_id && text_eq m.user_id u && is_active u t.members.people)
        t.members.organizations)
    ++ joined u t ms

unfoldable pub list_organizations :
    (precedes : Text → Text → Bool)
    → (user_id : Text) → (cursor : Option Text) → (limit : ℕ) → Tables
    → WorkspacePage OrganizationSummary
list_organizations precedes u cursor limit t =
    page (λ o. o.id)
      (take (suc limit) (
        sort_by (λ a b. precedes a.id b.id)
          (filter (λ o. is_after_cursor precedes cursor o.id) (joined u t t.members.memberships))))
      limit

abbrev pub log_workspace :
    WorkspaceAction → (organization_id actor_id resource_id : Text) → Tables → Tables
log_workspace action o u id t = record t {
  workspace_log =
      t.workspace_log
      ++ record { organization_id = o; actor_id = u; action = action; resource_id = id } ∷ [];
}

abbrev pub founded : (user_id name id : Text) → Database → Database
founded u name id db = record db {
  organizations = record { id = id; name = name } ∷ db.organizations;
  memberships = record { organization_id = id; user_id = u; role = owner } ∷ db.memberships;
}

-- `id` is the random identifier; an organisation that has it is a conflict of the primary key.
unfoldable pub create_organization :
    (user_id name id : Text) → Tables → Either WorkspaceError (OrganizationSummary × Tables)
create_organization u name id t = do
  require (is_active u t.members.people) access_denied
  require (not (any (λ o. text_eq o.id id) t.members.organizations)) key_exists
  ok (
    record { id = id; name = name; role = owner },
    log_workspace organization_created id u id (record t { members = founded u name id t.members }),
  )

abbrev pub environments_of : Text → Tables → List Text
environments_of p t = map (λ e. e.name) (filter (λ e. text_eq e.project_id p) t.environments)

unfoldable pub list_projects :
    (precedes : Text → Text → Bool)
    → (user_id organization_id : Text) → (cursor : Option Text) → (limit : ℕ) → Tables
    → Either WorkspaceError (WorkspacePage ProjectSummary)
list_projects precedes u o cursor limit t = do
  require_membership u o project_read t
  ok (
      page (λ p. p.id)
        (take (suc limit) (
          sort_by (λ a b. precedes a.id b.id)
            (map
              (λ p. record {
                id = p.id;
                organization_id = p.organization_id;
                name = p.name;
                environments = sort_by precedes (environments_of p.id t);
              })
              (filter (λ p. text_eq p.organization_id o && is_after_cursor precedes cursor p.id)
                t.projects))))
        limit)

-- Whether a name stands twice, which the primary key of `project_environments` refuses.
abbrev pub repeats : List Text → Bool
repeats [] = false
repeats (n ∷ ns) = if any (text_eq n) ns then true else repeats ns

unfoldable pub create_project :
    (user_id organization_id name : Text)
    → (environments : List Text) → (id : Text) → Tables
    → Either WorkspaceError (ProjectSummary × Tables)
create_project u o name environments id t = do
  require_membership u o project_manage t
  require (not (any (λ p. text_eq p.id id) t.projects)) key_exists
  require (not (repeats environments)) key_exists
  ok (
    record { id = id; organization_id = o; name = name; environments = environments },
    log_workspace project_created o u id (record t {
      projects = record { id = id; organization_id = o; name = name } ∷ t.projects;
      environments = map (λ n. record { project_id = id; name = n }) environments ++ t.environments;
    }),
  )
