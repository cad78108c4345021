-- ===== src/Api/Members/Admins.antt =====
-- What an admin may not do: `#mutateMember` of apps/api/src/postgres-organization-members.ts under
-- `canManageMember`.
use spectro.Prelude.{
  ok_injective, ◌≡◌, refl, sym, ap, ◌∙◌, true, false, ◌&&◌, inl, inr, Option, none, some, List, [],
  ◌∷◌, arith, find, filter, Text, Bool-cases, All,
}
use spectro.Api.Roles.{OrganizationRole, owner, admin, is_owner, is_next, can_manage_member}
use spectro.Api.Members.{
  ok, Membership, Database, MemberScope, is_key, actor, set_role, delete, write_member,
  mutate_member,
}
use spectro.Api.Members.Owners.{
  Unique, All-is_key, find-head, Mutation, mutate_member-Mutation, Mutation-result,
}

All-weaken_key :
    (o u : Text) (ms : List Membership)
    → All (λ m. is_key o u m ≡ false) ms
    → All (λ m. (is_key o u m && is_owner m.role) ≡ false) ms
All-weaken_key o u [] a = tt
All-weaken_key o u (m ∷ ms) (e, a) = (ground arith, All-weaken_key o u ms a)

All-not_owner :
    (o u : Text) (ms : List Membership) (t : Membership)
    → Unique ms
    → find (is_key o u) ms ≡ some t
    → is_owner t.role ≡ false
    → All (λ m. (is_key o u m && is_owner m.role) ≡ false) ms
All-not_owner o u [] t v f n = tt
All-not_owner o u (m ∷ ms) t v f n = elim (Bool-cases (is_key o u m)) [
  | inl e ↦ (
    ground (arith, find-head (λ r. is_owner r.role) (is_key o u) m t ms f e),
    All-weaken_key o u ms (All-is_key o u m ms e v.0),
  )
  | inr e ↦ (ground arith, All-not_owner o u ms t v.1 (ground arith) n)
]

filter-set_role :
    (o u : Text) (next : OrganizationRole) (ms : List Membership)
    → is_owner next ≡ false
    → All (λ m. (is_key o u m && is_owner m.role) ≡ false) ms
    → filter (λ m. is_owner m.role) (set_role o u next ms) ≡ filter (λ m. is_owner m.role) ms
filter-set_role o u next [] n a = refl
filter-set_role o u next (m ∷ ms) n (e, a) = elim (Bool-cases (is_key o u m)) [
  | inl k ↦ ground (arith, filter-set_role o u next ms n a)
  | inr k ↦ ground (arith, filter-set_role o u next ms n a)
]

filter-delete :
    (o u : Text) (ms : List Membership)
    → All (λ m. (is_key o u m && is_owner m.role) ≡ false) ms
    → filter (λ m. is_owner m.role) (delete o u ms) ≡ filter (λ m. is_owner m.role) ms
filter-delete o u [] a = refl
filter-delete o u (m ∷ ms) (e, a) = elim (Bool-cases (is_key o u m)) [
  | inl k ↦ ground (arith, filter-delete o u ms a)
  | inr k ↦ ground (arith, filter-delete o u ms a)
]

filter-write :
    (input : MemberScope) (u : Text) (previous : OrganizationRole) (next : Option OrganizationRole)
    (db : Database)
    → is_next next owner ≡ false
    → All (λ m. (is_key input.organization_id u m && is_owner m.role) ≡ false) db.memberships
    → filter (λ m. is_owner m.role) (write_member input u previous next db).memberships
      ≡ filter (λ m. is_owner m.role) db.memberships
filter-write input u previous none db n a = filter-delete input.organization_id u db.memberships a
filter-write input u previous (some next) db n a =
    filter-set_role input.organization_id u next db.memberships n a

can_manage_member-admin :
    (role target : OrganizationRole) (next : Option OrganizationRole)
    → role ≡ admin
    → can_manage_member role target next ≡ true
    → (is_owner target ≡ false) × (is_next next owner ≡ false)
unfolding can_manage_member
can_manage_member-admin role target next e h = ground arith

-- A change that an admin makes leaves the owners of every organisation as they are.
pub mutate_member-admin :
    (input : MemberScope) (target : Text) (next expected : Option OrganizationRole)
    (db d : Database)
    → Unique db.memberships
    → actor db input true ≡ ok admin
    → mutate_member input target next expected db ≡ ok d
    → filter (λ m. is_owner m.role) d.memberships ≡ filter (λ m. is_owner m.role) db.memberships
mutate_member-admin input target next expected db d v acting h =
    let m = mutate_member-Mutation input target next expected db d h in
    elim (Mutation-result input target next m.found.role db d m.result) [
      | inl e ↦ ap (λ x. filter (λ m. is_owner m.role) x.memberships) (sym e)
      | inr (e, safe) ↦
          ap (λ x. filter (λ m. is_owner m.role) x.memberships) (sym e)
          ∙ filter-write input target m.found.role next db (limits m).1 (
              All-not_owner input.organization_id target db.memberships m.found v m.finds
                (limits m).0)
    ]
  where
    limits :
        (m : Mutation input target next db d)
        → (is_owner m.found.role ≡ false) × (is_next next owner ≡ false)
    limits m =
        can_manage_member-admin m.role m.found.role next
          (ok_injective m.role admin (sym m.acts ∙ acting)) m.allowed
