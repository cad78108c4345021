-- ===== src/Api/Members/Invites/Pending.antt =====
-- An address has at most one open invitation to an organisation, the unique index
-- `organization_invitations_pending_email_idx`: `createInvitation` of
-- apps/api/src/postgres-organization-members.ts.
use spectro.Prelude.{
  ok_injective, ◌≡◌, refl, subst, ℕ, ◌+◌, ◌≤◌, ◌<◌, true, false, not, ◌&&◌, Bool, Option, none,
  List, [], ◌∷◌, ◌++◌, arith, ltb, ltb→lt, leb, length, filter, any, inl, inr, Text, text_eq,
  text_eq_iff, Bool-cases,
}
use spectro.Api.Roles.{OrganizationRole, can_manage_member}
use spectro.Api.Members.{
  ok, Invitation, Database, MemberScope, actor, >>=-eq-ok, require-then, owner_protected,
  already_member, invitation_exists, invitation_limit,
}
use spectro.Api.Members.Invites.{
  is_open, is_pending, is_to, has_address, parsed, invited, created_database, revoke,
  create_invitation,
}

abbrev pub count {ℓ} : {A : Type ℓ} → (A → Bool) → List A → ℕ
count p xs = length (filter p xs)

-- The open invitations of the address to the organisation.
abbrev pub open_invitations : (organization_id email : Text) → List Invitation → ℕ
open_invitations o email is = count (λ i. is_to o email i && is_open i) is

count-append {ℓ} :
    {A : Type ℓ} (p : A → Bool) (xs ys : List A) → count p (xs ++ ys) ≡ count p xs + count p ys
count-append p [] ys = omega arith
count-append p (x ∷ xs) ys = ground (arith, count-append p xs ys)

-- Revoking opens no invitation.
count-revoke-le :
    (now : ℕ) (p : Invitation → Bool) (o email : Text) (is : List Invitation)
    → open_invitations o email (revoke now p is) ≤ open_invitations o email is
count-revoke-le now p o email [] = omega arith
count-revoke-le now p o email (i ∷ is) = elim (Bool-cases (p i)) [
  | inl e ↦ ground (arith, count-revoke-le now p o email is)
  | inr e ↦ ground (arith, count-revoke-le now p o email is)
]

-- Where no invitation is pending, every open one has expired, and is revoked.
count-revoke-zero :
    (now : ℕ) (o email : Text) (is : List Invitation)
    → any (λ i. is_to o email i && is_pending now i) is ≡ false
    → open_invitations o email
        (revoke now (λ i. is_to o email i && leb i.expires_at now && is_open i) is)
      ≡ 0
count-revoke-zero now o email [] h = refl
count-revoke-zero now o email (i ∷ is) h =
    elim (Bool-cases (is_to o email i && leb i.expires_at now && is_open i)) [
      | inl e ↦ ground (arith, count-revoke-zero now o email is)
      | inr e ↦ ground (arith, count-revoke-zero now o email is)
    ]

not-true : (b : Bool) → not b ≡ true → b ≡ false
not-true b h = ground arith

-- One new invitation, once the expired ones to its address are revoked.
count-create :
    (now : ℕ) (o email : Text) (is : List Invitation) (new : Invitation) (x e : Text)
    → any (λ i. is_to o email i && is_pending now i) is ≡ false
    → new.organization_id ≡ o
    → new.email ≡ email
    → open_invitations x e is ≤ 1
    → open_invitations x e
        (revoke now (λ i. is_to o email i && leb i.expires_at now && is_open i) is ++ new ∷ [])
      ≤ 1
count-create now o email is new x e none_left at to few =
    let p : Invitation → Bool = λ i. is_to x e i && is_open i in
    let rest = revoke now (λ i. is_to o email i && leb i.expires_at now && is_open i) is in
    elim (Bool-cases (text_eq o x && text_eq email e)) [
      | inl same ↦
          let here =
            subst (λ y. open_invitations x y rest ≡ 0) ((text_eq_iff email e).0 (ground arith))
              (subst (λ y. open_invitations y email rest ≡ 0) ((text_eq_iff o x).0 (ground arith))
                (count-revoke-zero now o email is none_left)) in
          ground (arith, count-append p rest (new ∷ []), here)
      | inr other ↦ ground (
        arith,
        count-append p rest (new ∷ []),
        count-revoke-le now (λ i. is_to o email i && leb i.expires_at now && is_open i) x e is,
        at,
        to,
      )
    ]

-- Revoking makes no invitation pending.
count-pending-le :
    (now : ℕ) (p : Invitation → Bool) (o : Text) (is : List Invitation)
    → count (λ i. text_eq i.organization_id o && is_pending now i) (revoke now p is)
      ≤ count (λ i. text_eq i.organization_id o && is_pending now i) is
count-pending-le now p o [] = omega arith
count-pending-le now p o (i ∷ is) = elim (Bool-cases (p i)) [
  | inl e ↦ ground (arith, count-pending-le now p o is)
  | inr e ↦ ground (arith, count-pending-le now p o is)
]

count-pending-add :
    (now : ℕ) (p : Invitation → Bool) (o : Text) (is : List Invitation) (new : Invitation)
    → count (λ i. text_eq i.organization_id o && is_pending now i) is < 100
    → count (λ i. text_eq i.organization_id o && is_pending now i) (revoke now p is ++ new ∷ [])
      ≤ 100
count-pending-add now p o is new h =
    let q : Invitation → Bool = λ i. text_eq i.organization_id o && is_pending now i in
    ground (arith, count-append q (revoke now p is) (new ∷ []), count-pending-le now p o is)

module _ (parse_email : Text → Option Text) (lower trim hash : Text → Text) where
  -- If no address has two open invitations to one organisation, then none has after
  -- `createInvitation`, and the organisation has at most 100 pending invitations.
  pub create_invitation_lem :
      (input : MemberScope) (raw : Text) (role : OrganizationRole) (now : ℕ) (token id : Text)
      (db d : Database) (o email : Text)
      → open_invitations o email db.invitations ≤ 1
      → create_invitation parse_email lower trim hash input raw role now token id db ≡ ok d
      → (open_invitations o email d.invitations ≤ 1)
        × (count
              (λ i. text_eq i.organization_id input.organization_id && is_pending now i)
              d.invitations
            ≤ 100)
  unfolding create_invitation
  create_invitation_lem input raw role now token id db d o email few h =
      let (to, parses, h1) = >>=-eq-ok (parsed parse_email lower trim hash raw) _ h in
      let (own, acts, h2) = >>=-eq-ok (actor db input true) _ h1 in
      let (allowed, h3) = require-then (can_manage_member own role none) owner_protected _ h2 in
      let (outside, h4) =
        require-then
          (not (
            any (has_address parse_email lower trim hash db input.organization_id to)
              db.memberships))
          already_member _ h3 in
      let (none_left, h5) =
        require-then
          (not (any (λ i. is_to input.organization_id to i && is_pending now i) db.invitations))
          invitation_exists _ h4 in
      let (room, h6) =
        require-then
          (ltb
            (count (λ i. text_eq i.organization_id input.organization_id && is_pending now i)
              db.invitations)
            100)
          invitation_limit _ h5 in
      let new = invited parse_email lower trim hash input to role now token id in
      let e =
        ok_injective (created_database parse_email lower trim hash input to role now token id db) d
          h6 in
      let q : Invitation → Bool =
        λ i. is_to input.organization_id to i && leb i.expires_at now && is_open i in
      let in_org : Invitation → Bool =
        λ i. text_eq i.organization_id input.organization_id && is_pending now i in
      (
        subst (λ x. open_invitations o email x.invitations ≤ 1) e
            (count-create now input.organization_id to db.invitations new o email
              (not-true _ none_left) refl refl few),
        subst (λ x. count in_org x.invitations ≤ 100) e
            (count-pending-add now q input.organization_id db.invitations new (ltb→lt _ _ room)),
      )
