-- ===== src/Api/Members/Invites.antt =====
-- Invitations to an organisation: `available`, `recipient`, `preview` and the invitation operations
-- of apps/api/src/postgres-organization-members.ts. `now` is the time of the transaction.
pub mod Pending
pub mod Accept
use spectro.Prelude.{
  is_token, ℕ, ◌+◌, Bool, true, false, not, ◌&&◌, ◌||◌, Option, none, some, List, [], ◌∷◌, ◌++◌,
  map, ltb, leb, ◌==◌, if◌then◌else◌, is_some, length, filter, find, any, Text, text_eq,
}
use spectro.Api.Roles.{OrganizationRole, can_manage_member}
use spectro.Api.Members.{
  forbidden, owner_protected, already_member, invitation_exists, invitation_limit,
  invitation_unavailable, email_unverified, recipient_mismatch, invalid_request, Result, ok, err,
  ◌>>=◌, ◌>>◌, membership, Membership, Invitation, invitation_created, invitation_revoked,
  invitation_accepted, Database, MemberScope, require, required, is_key, actor, audit,
}

abbrev pub is_open : Invitation → Bool
is_open i = not (is_some i.revoked_at) && not (is_some i.accepted_at)

-- `expires_at > now() AND revoked_at IS NULL AND accepted_at IS NULL`
abbrev pub is_pending : (now : ℕ) → Invitation → Bool
is_pending now i = ltb now i.expires_at && is_open i

abbrev pub is_to : (organization_id email : Text) → Invitation → Bool
is_to o email i = text_eq i.organization_id o && text_eq i.email email

pub data InvitationStatus : Type 0 where
  pending expired revoked accepted : InvitationStatus

-- The `status` of `summary`.
unfoldable pub invitation_status : (now : ℕ) → Invitation → InvitationStatus
invitation_status now i =
    if is_some i.accepted_at
    then accepted
    else if is_some i.revoked_at
    then revoked
    else if leb i.expires_at now
    then expired
    else pending

pub record InvitationPreview : Type 0 where
  pub organization_id : Text
  pub organization_name : Text
  pub role : OrganizationRole
  pub expires_at : ℕ

abbrev week_ms : ℕ
week_ms = 604800000

abbrev pub revoke : (now : ℕ) → (Invitation → Bool) → List Invitation → List Invitation
revoke now p is = map (λ i. if p i then record i { revoked_at = some now } else i) is

abbrev pub accept : (user_id id : Text) → (now : ℕ) → List Invitation → List Invitation
accept u id now is =
    map
      (λ i.
        if text_eq i.id id then record i { accepted_at = some now; accepted_by = some u } else i)
      is

-- `invitationEmail.parse` is the validator library's, with `none` for its error; `lower` is
-- `toLowerCase` and `trim` is `trim`.
module _ (parse_email : Text → Option Text) (lower trim hash : Text → Text) where
  -- Whether a member of the organisation has the address.
  abbrev pub has_address : Database → (organization_id email : Text) → Membership → Bool
  has_address db o email m =
      text_eq m.organization_id o
      && any
          (λ p.
            text_eq p.id m.user_id
            && elim p.email [ none ↦ false | some e ↦ text_eq (lower e) email ])
          db.people

  abbrev pub parsed : Text → Result Text
  parsed raw = elim (parse_email raw) [ none ↦ err invalid_request | some email ↦ ok email ]

  abbrev pub invited :
      MemberScope → (email : Text) → OrganizationRole → (now : ℕ) → (token id : Text) → Invitation
  invited input email role now token id = record {
    id = id;
    organization_id = input.organization_id;
    email = email;
    role = role;
    token_hash = hash token;
    created_by = input.user_id;
    created_at = now;
    expires_at = now + week_ms;
    revoked_at = none;
    accepted_at = none;
    accepted_by = none;
  }

  abbrev pub created_database :
      MemberScope
      → (email : Text) → OrganizationRole
      → (now : ℕ) → (token id : Text) → Database
      → Database
  created_database input email role now token id db =
      audit input invitation_created id none (some role) (record db {
        invitations =
            revoke now
              (λ i. is_to input.organization_id email i && leb i.expires_at now && is_open i)
              db.invitations
            ++ invited input email role now token id ∷ [];
      })

  -- `token` and `id` are random. What is returned is the row `invited` and the token.
  unfoldable pub create_invitation :
      MemberScope
      → (raw_email : Text) → OrganizationRole
      → (now : ℕ) → (token id : Text) → Database
      → Result Database
  create_invitation input raw_email role now token id db = do
    email ← parsed raw_email
    own ← actor db input true
    require (can_manage_member own role none) owner_protected
    require (not (any (has_address db input.organization_id email) db.memberships)) already_member
    require
        (not (any (λ i. is_to input.organization_id email i && is_pending now i) db.invitations))
        invitation_exists
    require
        (ltb
          (length (
            filter (λ i. text_eq i.organization_id input.organization_id && is_pending now i)
              db.invitations))
          100)
        invitation_limit
    ok (created_database input email role now token id db)

  unfoldable pub revoke_invitation :
      MemberScope → (invitation_id : Text) → (now : ℕ) → Database → Result Database
  revoke_invitation input invitation_id now db = do
    own ← actor db input true
    row ←
        required
          (find (λ i. text_eq i.id invitation_id && text_eq i.organization_id input.organization_id)
            db.invitations)
          invitation_unavailable
    require (can_manage_member own row.role none) owner_protected
    if not (is_open row)
        then ok db
        else ok (
            audit input invitation_revoked row.id (some row.role) none
              (record db { invitations = revoke now (λ i. text_eq i.id row.id) db.invitations }))

  unfoldable pub available : Database → (token : Text) → (now : ℕ) → Result Invitation
  available db token now = do
    require (is_token token) invitation_unavailable
    required (find (λ i. text_eq i.token_hash (hash token) && is_pending now i) db.invitations)
        invitation_unavailable

  abbrev pub is_recipient : Option Text → Invitation → Result {0} Unit
  is_recipient none i = err (membership email_unverified)
  is_recipient (some []) i = err (membership email_unverified)
  is_recipient (some (c ∷ s)) i =
      require (text_eq (lower (trim (c ∷ s))) i.email) recipient_mismatch

  unfoldable pub recipient : Database → (user_id : Text) → Invitation → Result {0} Unit
  recipient db u i = do
    person ← required (find (λ p. text_eq p.id u && not p.disabled) db.people) forbidden
    require person.email_verified email_unverified
    is_recipient person.email i

  unfoldable pub preview : Database → Invitation → Result InvitationPreview
  preview db i = do
    organization ←
        required (find (λ o. text_eq o.id i.organization_id) db.organizations)
          invitation_unavailable
    ok (record {
      organization_id = i.organization_id;
      organization_name = organization.name;
      role = i.role;
      expires_at = i.expires_at;
    })

  unfoldable pub preview_invitation :
      (user_id token : Text) → (now : ℕ) → Database → Result InvitationPreview
  preview_invitation u token now db = do i ← available db token now; recipient db u i; preview db i

  abbrev pub accepted_database : (user_id : Text) → (now : ℕ) → Invitation → Database → Database
  accepted_database u now i db =
      audit (record { user_id = u; organization_id = i.organization_id }) invitation_accepted i.id
        none (some i.role)
        (record db {
          memberships =
              db.memberships
              ++ record { organization_id = i.organization_id; user_id = u; role = i.role } ∷ [];
          invitations = accept u i.id now db.invitations;
        })

  -- The invitation is read again once the organisation is locked; a transaction sees one database.
  unfoldable pub accept_invitation :
      (user_id token : Text) → (now : ℕ) → Database → Result (InvitationPreview × Database)
  accept_invitation u token now db = do
    initial ← available db token now
    i ← available db token now
    recipient db u i
    require (not (any (is_key i.organization_id u) db.memberships)) already_member
    p ← preview (accepted_database u now i db) i
    ok (p, accepted_database u now i db)
