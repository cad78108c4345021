-- ===== src/Api/Workspaces/Founding.antt =====
-- What the founder of an organisation or a project in apps/api/src/postgres-workspaces.ts may do.
use spectro.Prelude.{
  ◌≡◌, refl, sym, ap, subst, ◌∙◌, true, not, ◌&&◌, ◌||◌, List, [], ◌∷◌, ◌++◌, map, any, arith,
  Bool-cases, inl, inr, Text, text_eq, text_eq_iff, text_eq_refl, ok, require-then, ok_injective,
}
use spectro.Api.Members.{Membership, is_active}
use spectro.Api.Members.Owners.{has_active_owner}
use spectro.Api.Tables.{ProjectEnvironment, Tables}
use spectro.Api.Keys.Grants.{ManagesProject, found_grants}
use spectro.Api.Workspaces.{
  access_denied, key_exists, OrganizationSummary, ProjectSummary, create_organization,
  create_project, require_membership, is_member, founded, repeats,
}

-- A new organisation has an active owner, its founder, and every organisation that had one still has.
pub create_organization-has_active_owner :
    (user name id : Text) (t u : Tables) (s : OrganizationSummary)
    → create_organization user name id t ≡ ok (s, u)
    → (has_active_owner u.members id ≡ true)
      × ((o : Text) → has_active_owner t.members o ≡ true → has_active_owner u.members o ≡ true)
unfolding create_organization
create_organization-has_active_owner user name id t u s h =
    let (on, h1) = require-then (is_active user t.members.people) access_denied _ h in
    let (_, h2) =
      require-then (not (any (λ o. text_eq o.id id) t.members.organizations)) key_exists _ h1 in
    let is : founded user name id t.members ≡ u.members =
      ap (λ r. r.1.members) (ok_injective _ _ h2) in
    (
      subst (λ db. has_active_owner db id ≡ true) is (rw (text_eq_refl id, on) refl),
      λ o had. subst (λ db. has_active_owner db o ≡ true) is (ground (arith, had)),
    )

any-environments :
    (id n : Text) (names : List Text) (es : List ProjectEnvironment)
    → any (text_eq n) names ≡ true
    → any
        (λ e. text_eq e.project_id id && text_eq e.name n)
        (map (λ m. record { project_id = id; name = m }) names ++ es)
      ≡ true
any-environments id n [] es h = cc
any-environments id n (m ∷ ms) es h = elim (Bool-cases (text_eq n m)) [
  | inl e ↦ let same = (text_eq_iff n m).0 e in rw (sym same, text_eq_refl id, text_eq_refl n) refl
  | inr e ↦
      let rest = any-environments id n ms es (sym (ap (λ b. b || any (text_eq n) ms) e) ∙ h) in
      ground (arith, rest)
]

member_parts :
    (o u : Text) (t : Tables) (m : Membership)
    → is_member o u t m ≡ true
    → (m.organization_id ≡ o) × (text_eq m.user_id u ≡ true) × (is_active u t.members.people ≡ true)
member_parts o u t m h =
    ((text_eq_iff m.organization_id o).0 (ground (arith, h)), ground (arith, h), ground (arith, h))

-- Who creates a project manages it in each of its environments, and so may create keys there.
pub create_project-ManagesProject :
    (user organization name id n : Text) (names : List Text) (t u : Tables) (s : ProjectSummary)
    → create_project user organization name names id t ≡ ok (s, u)
    → any (text_eq n) names ≡ true
    → ManagesProject (record { user_id = user; project_id = id; environment = n }) u
unfolding create_project require_membership
create_project-ManagesProject user organization name id n names t u s h named =
    let (member, h1) = require-then _ access_denied _ h in
    let (_, h2) = require-then (not (any (λ p. text_eq p.id id) t.projects)) key_exists _ h1 in
    let (_, h3) = require-then (not (repeats names)) key_exists _ h2 in
    let (m, is, manages) =
      found_grants (is_member organization user t) t.members.memberships member in
    let (in_organization, is_user, on) = member_parts organization user t m is in
    subst (ManagesProject (record { user_id = user; project_id = id; environment = n }))
      (ap (λ r. r.1) (ok_injective _ _ h3))
      (
        on,
        m,
        rw
            (
              is_user,
              in_organization,
              text_eq_refl id,
              text_eq_refl organization,
              any-environments id n names t.environments named,
            )
            refl,
        manages,
      )
