-- ===== src/Api/Roles.antt =====
-- apps/api/src/organization-permissions.ts, and `canManageMember` of organization-members.ts.
use spectro.Prelude.{Bool, true, false, not, ◌&&◌, ◌||◌, Option, none, some}

pub data OrganizationRole : Type 0 where
  owner admin member viewer : OrganizationRole

pub data OrganizationAction : Type 0 where
  project_read issue_write project_manage member_manage organization_delete : OrganizationAction

abbrev pub role_eq : OrganizationRole → OrganizationRole → Bool
role_eq owner owner = true
role_eq admin admin = true
role_eq member member = true
role_eq viewer viewer = true
role_eq _ _ = false

abbrev pub is_owner : OrganizationRole → Bool
is_owner r = role_eq r owner

abbrev pub is_next : Option OrganizationRole → OrganizationRole → Bool
is_next none r = false
is_next (some n) r = role_eq n r

unfoldable pub organization_role_allows : OrganizationRole → OrganizationAction → Bool
organization_role_allows role project_read = true
organization_role_allows role issue_write = not (role_eq role viewer)
organization_role_allows role project_manage = role_eq role owner || role_eq role admin
organization_role_allows role member_manage = role_eq role owner || role_eq role admin
organization_role_allows role organization_delete = role_eq role owner

unfoldable pub can_manage_member :
    (actor target : OrganizationRole) (next : Option OrganizationRole) → Bool
can_manage_member actor target next =
    role_eq actor owner
    || (role_eq actor admin && not (role_eq target owner) && not (is_next next owner))
