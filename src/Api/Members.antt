-- ===== src/Api/Members.antt =====
-- apps/api/src/postgres-organization-members.ts: members and invitations of an organisation. The
-- tables are lists of rows, and a statement is its effect on them; a transaction that throws leaves
-- the database as it was. Transactions that lock the organisation are taken one after another.
pub mod Owners
pub mod Admins
pub mod Invites
use spectro.Prelude.{
  ◌≡◌, refl, ℕ, ◌+◌, Bool, true, false, not, ◌&&◌, ◌||◌, Option, none, some, List, [], ◌∷◌, ◌++◌,
  map, ltb, leb, ◌==◌, if◌then◌else◌, is_some, length, filter, find, any, Text, text, text_eq,
}
pub use spectro.Prelude.{Either, ok, err, ◌>>=◌, ◌>>◌, >>=-eq-ok, >>-eq-ok}
use spectro.Api.Roles.{OrganizationRole, owner, admin, role_eq, is_next, can_manage_member}

pub data MembershipError : Type 0 where
  forbidden owner_protected last_owner membership_changed already_member invitation_exists
        invitation_limit invitation_unavailable email_unverified recipient_mismatch :
      MembershipError

-- What an operation throws: a `MembershipError`, or the `ZodError` of an address.
pub data StoreError : Type 0 where
  membership : MembershipError → StoreError
  invalid_request : StoreError

abbrev pub Result {ℓ} : Type ℓ → Type ℓ
Result A = Either StoreError A

-- A row of `console_users`.
pub record Person : Type 0 where
  pub id : Text
  pub email : Option Text
  pub email_verified : Bool
  pub disabled : Bool

pub record Membership : Type 0 where
  pub organization_id : Text
  pub user_id : Text
  pub role : OrganizationRole

pub record Invitation : Type 0 where
  pub id : Text
  pub organization_id : Text
  pub email : Text
  pub role : OrganizationRole
  pub token_hash : Text
  pub created_by : Text
  pub created_at : ℕ
  pub expires_at : ℕ
  pub revoked_at : Option ℕ
  pub accepted_at : Option ℕ
  pub accepted_by : Option Text

pub data AuditAction : Type 0 where
  invitation_created invitation_revoked invitation_accepted member_removed member_role_changed :
      AuditAction

pub record AuditEntry : Type 0 where
  pub organization_id : Text
  pub actor_id : Text
  pub action : AuditAction
  pub resource_id : Text
  pub previous_role : Option OrganizationRole
  pub next_role : Option OrganizationRole

pub record Organization : Type 0 where
  pub id : Text
  pub name : Text

pub record Database : Type 0 where
  pub organizations : List Organization
  pub people : List Person
  pub memberships : List Membership
  pub invitations : List Invitation
  pub audit_log : List AuditEntry

pub record MemberScope : Type 0 where
  pub user_id : Text
  pub organization_id : Text

abbrev pub require : Bool → MembershipError → Result {0} Unit
require true e = ok tt
require false e = err (membership e)

abbrev pub required {ℓ} : {A : Type ℓ} → Option A → MembershipError → Result A
required (some a) e = ok a
required none e = err (membership e)

pub require-eq-ok : (b : Bool) (e : MembershipError) {u : Unit} → require b e ≡ ok u → b ≡ true
require-eq-ok true e h = refl
require-eq-ok false e h = cc

pub require-then {ℓ} :
    {B : Type ℓ} (b : Bool) (e : MembershipError) (r : Result B) {d : B}
    → (require b e >> r) ≡ ok d
    → (b ≡ true) × (r ≡ ok d)
require-then true e r h = (refl, h)
require-then false e r h = cc

pub required-eq-ok {ℓ} :
    {A : Type ℓ} (o : Option A) (e : MembershipError) {a : A} → required o e ≡ ok a → o ≡ some a
required-eq-ok (some b) e h = cc
required-eq-ok none e h = cc

abbrev pub is_key : (organization_id user_id : Text) → Membership → Bool
is_key o u m = text_eq m.organization_id o && text_eq m.user_id u

-- A row of `console_users` of this id that is not disabled.
abbrev pub is_active : Text → List Person → Bool
is_active u people = any (λ p. text_eq p.id u && not p.disabled) people

abbrev pub manages : OrganizationRole → Bool
manages role = role_eq role owner || role_eq role admin

unfoldable pub actor : Database → MemberScope → (manage : Bool) → Result OrganizationRole
actor db input manage = do
  row ←
      required
        (find (λ m. is_key input.organization_id input.user_id m && is_active m.user_id db.people)
          db.memberships)
        forbidden
  require (not manage || manages row.role) forbidden
  ok row.role

abbrev pub audit :
    MemberScope
    → AuditAction
    → Text
    → (previous next : Option OrganizationRole) → Database
    → Database
audit input action resource previous next db = record db {
  audit_log =
      db.audit_log
      ++ record {
        organization_id = input.organization_id;
        actor_id = input.user_id;
        action = action;
        resource_id = resource;
        previous_role = previous;
        next_role = next;
      }
        ∷ [];
}

-- An active owner of the organisation other than the user.
abbrev pub is_other_owner : List Person → (organization_id user_id : Text) → Membership → Bool
is_other_owner people o u m =
    text_eq m.organization_id o
    && role_eq m.role owner
    && is_active m.user_id people
    && not (text_eq m.user_id u)

unfoldable pub protect_owner :
    Database → (organization_id target_user_id : Text) → OrganizationRole → Result {0} Unit
protect_owner db o u role =
    require (not (role_eq role owner) || any (is_other_owner db.people o u) db.memberships)
      last_owner

abbrev pub set_role :
    (organization_id user_id : Text) → OrganizationRole → List Membership → List Membership
set_role o u next ms = map (λ m. if is_key o u m then record m { role = next } else m) ms

abbrev pub delete : (organization_id user_id : Text) → List Membership → List Membership
delete o u ms = filter (λ m. not (is_key o u m)) ms

abbrev pub write_member :
    MemberScope
    → (target : Text) → (previous : OrganizationRole) → Option OrganizationRole
    → Database
    → Database
write_member input target previous none db =
    audit input member_removed target (some previous) none
      (record db { memberships = delete input.organization_id target db.memberships })
write_member input target previous (some next) db =
    audit input member_role_changed target (some previous) (some next)
      (record db { memberships = set_role input.organization_id target next db.memberships })

abbrev is_expected : Option OrganizationRole → OrganizationRole → Bool
is_expected none r = true
is_expected (some e) r = role_eq r e

-- `#mutateMember` from the return for an unchanged role on.
abbrev pub mutate_found :
    MemberScope
    → (target : Text) → (next : Option OrganizationRole) → (previous : OrganizationRole) → Database
    → Result Database
mutate_found input target next previous db = if is_next next previous then ok db else (do
  protect_owner db input.organization_id target previous
  ok (write_member input target previous next db))

-- `#mutateMember`, inside its transaction.
unfoldable pub mutate_member :
    MemberScope
    → (target_user_id : Text) → (next expected : Option OrganizationRole) → Database
    → Result Database
mutate_member input target next expected db = do
  role ← actor db input true
  found ← required (find (is_key input.organization_id target) db.memberships) membership_changed
  require (can_manage_member role found.role next) owner_protected
  require (is_expected expected found.role) membership_changed
  mutate_found input target next found.role db

abbrev pub change_role :
    MemberScope → Text → (role expected : OrganizationRole) → Database → Result Database
change_role input target role expected db =
    mutate_member input target (some role) (some expected) db

abbrev pub remove_member : MemberScope → Text → Database → Result Database
remove_member input target db = mutate_member input target none none db
