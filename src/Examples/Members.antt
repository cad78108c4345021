-- ===== src/Examples/Members.antt =====
-- The theorems on organisation members, at a concrete database.
use spectro.Prelude.{
  is_token, ◌≡◌, refl, ◌≤◌, true, false, Option, none, some, [], ◌∷◌, ◌++◌, filter, find, ◌&&◌,
  arith, Text, text, text_eq,
}
use spectro.Api.Roles.{owner, admin, member, viewer, is_owner, can_manage_member}
use spectro.Api.Members.{
  ok, err, membership, invitation_unavailable, Person, Invitation, Database, MemberScope, actor,
  mutate_member, member_removed, protect_owner,
}
use spectro.Api.Members.Owners.{Unique, has_active_owner, mutate_member-keeps_owner}
use spectro.Api.Members.Admins.{mutate_member-admin}
use spectro.Api.Members.Invites.{
  is_pending, create_invitation, accept_invitation, accepted_database, preview, available,
  recipient, created_database, InvitationPreview,
}
use spectro.Api.Members.Invites.Pending.{open_invitations, count, create_invitation_lem}
use spectro.Api.Members.Invites.Accept.{has_hash, IsRecipient, accept_invitation_lem}

abbrev person : Text → Person
person id = record { id = id; email = some (text "a@b.c"); email_verified = true; disabled = false }

abbrev letters : Text
letters = text "0123456789012345678901234567890123456789abc"

abbrev invite : Invitation
invite = record {
  id = text "inv_1";
  organization_id = text "org_1";
  email = text "a@b.c";
  role = member;
  token_hash = letters;
  created_by = text "usr_1";
  created_at = 0;
  expires_at = 1000;
  revoked_at = none;
  accepted_at = none;
  accepted_by = none;
}

abbrev team : Database
team = record {
  organizations = record { id = text "org_1"; name = text "Shop" } ∷ [];
  people =
      person (text "usr_1")
      ∷ person (text "usr_2")
      ∷ person (text "usr_3")
      ∷ person (text "usr_4")
      ∷ [];
  memberships =
      record { organization_id = text "org_1"; user_id = text "usr_1"; role = owner }
      ∷ record { organization_id = text "org_1"; user_id = text "usr_2"; role = admin }
      ∷ record { organization_id = text "org_1"; user_id = text "usr_3"; role = viewer }
      ∷ [];
  invitations = invite ∷ [];
  audit_log = [];
}

abbrev as_admin : MemberScope
as_admin = record { user_id = text "usr_2"; organization_id = text "org_1" }

team-Unique : Unique team.memberships
unfolding text_eq
team-Unique = ((refl, (refl, tt)), ((refl, tt), (tt, tt)))

abbrev removed : Database
removed = record team {
  memberships =
      record { organization_id = text "org_1"; user_id = text "usr_1"; role = owner }
      ∷ record { organization_id = text "org_1"; user_id = text "usr_2"; role = admin }
      ∷ [];
  audit_log =
      record {
        organization_id = text "org_1";
        actor_id = text "usr_2";
        action = member_removed;
        resource_id = text "usr_3";
        previous_role = some viewer;
        next_role = none;
      }
      ∷ [];
}

removed-eq : mutate_member as_admin (text "usr_3") none none team ≡ ok removed
unfolding mutate_member actor protect_owner can_manage_member text_eq
removed-eq = refl

team-owner : has_active_owner team (text "org_1") ≡ true
unfolding text_eq
team-owner = refl

team-admin : actor team as_admin true ≡ ok admin
unfolding actor text_eq
team-admin = refl

mutate_member-keeps_owner_example : has_active_owner removed (text "org_1") ≡ true
mutate_member-keeps_owner_example =
    mutate_member-keeps_owner as_admin (text "usr_3") none none team removed (text "org_1")
      team-Unique team-owner removed-eq

mutate_member-admin_example :
    filter (λ m. is_owner m.role) removed.memberships
    ≡ filter (λ m. is_owner m.role) team.memberships
mutate_member-admin_example =
    mutate_member-admin as_admin (text "usr_3") none none team removed team-Unique team-admin
      removed-eq

abbrev parse : Text → Option Text
parse s = some s

abbrev same : Text → Text
same s = s

abbrev created : Database
created =
    created_database parse same same same as_admin (text "new@b.c") member 10 (text "t")
      (text "inv_2") team

created-eq :
    create_invitation parse same same same as_admin
      (text "new@b.c")
      member
      10
      (text "t")
      (text "inv_2")
      team
    ≡ ok created
unfolding create_invitation actor can_manage_member text_eq
created-eq = refl

none-open : open_invitations (text "org_1") (text "new@b.c") team.invitations ≤ 1
unfolding text_eq
none-open = omega arith

create_invitation_lem_example :
    (open_invitations (text "org_1") (text "new@b.c") created.invitations ≤ 1)
    × (count (λ i. text_eq i.organization_id (text "org_1") && is_pending 10 i) created.invitations
        ≤ 100)
create_invitation_lem_example =
    create_invitation_lem parse same same same as_admin (text "new@b.c") member 10 (text "t")
      (text "inv_2") team created (text "org_1") (text "new@b.c") none-open created-eq

abbrev shop : InvitationPreview
shop = record {
  organization_id = text "org_1";
  organization_name = text "Shop";
  role = member;
  expires_at = 1000;
}

abbrev joined : Database
joined = accepted_database parse same same same (text "usr_4") 20 invite team

joined-eq :
    accept_invitation parse same same same (text "usr_4") letters 20 team ≡ ok (shop, joined)
unfolding accept_invitation available recipient preview is_token text_eq
joined-eq = refl

few-hashes : count (has_hash letters) team.invitations ≤ 1
unfolding text_eq
few-hashes = omega arith

accept_invitation_lem_example :
    ((i : Invitation) × (find (λ i. has_hash letters i && is_pending 20 i) team.invitations
        ≡ some i)
      × IsRecipient same same team (text "usr_4") i
      × (joined.memberships
          ≡ team.memberships
            ++ record { organization_id = i.organization_id; user_id = text "usr_4"; role = i.role }
              ∷ []))
    × Unique joined.memberships
    × (accept_invitation parse same same same (text "usr_3") letters 30 joined
        ≡ err (membership invitation_unavailable))
accept_invitation_lem_example =
    accept_invitation_lem parse same same same (text "usr_4") letters 20 team joined shop
      (text "usr_3") 30 team-Unique few-hashes joined-eq
