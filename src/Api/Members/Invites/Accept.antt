-- ===== src/Api/Members/Invites/Accept.antt =====
-- What `acceptInvitation` of apps/api/src/postgres-organization-members.ts has checked and done, and
-- that a token is accepted once.
use spectro.Prelude.{
  ◌≡◌, refl, sym, ap, subst, ◌∙◌, ℕ, ◌≤◌, true, false, not, ◌&&◌, Bool, Option, none, some, List,
  [], ◌∷◌, ◌++◌, arith, inl, inr, find, any, Text, text_eq, text_eq_iff, text_eq_refl, Bool-cases,
  All-append,
}
use spectro.Api.Members.{
  ok, err, membership, invitation_unavailable, already_member, Membership, Result, Invitation,
  Person, Database, is_key, >>=-eq-ok, >>-eq-ok, require-then, required-eq-ok, require-eq-ok,
  email_unverified,
}
use spectro.Api.Members.Owners.{Unique}
use spectro.Api.Members.Invites.{
  is_pending, accept, available, recipient, is_recipient, preview, accepted_database, is_token,
  InvitationPreview, accept_invitation,
}
use spectro.Api.Members.Invites.Pending.{count}

abbrev pub has_hash : Text → Invitation → Bool
has_hash h i = text_eq i.token_hash h

-- No row of the hash.
find-accept-none :
    (h u id : Text) (now later : ℕ) (is : List Invitation)
    → count (has_hash h) is ≡ 0
    → find (λ i. has_hash h i && is_pending later i) (accept u id now is) ≡ none
find-accept-none h u id now later [] z = refl
find-accept-none h u id now later (i ∷ is) z = elim (Bool-cases (text_eq i.id id)) [
  | inl e ↦ ground (arith, find-accept-none h u id now later is)
  | inr e ↦ ground (arith, find-accept-none h u id now later is)
]

find-none :
    (h : Text) (now : ℕ) (is : List Invitation)
    → count (has_hash h) is ≡ 0
    → find (λ i. has_hash h i && is_pending now i) is ≡ none
find-none h now [] z = refl
find-none h now (i ∷ is) z = ground (arith, find-none h now is)

some_injective : (a b : Invitation) → some a ≡ some b → a ≡ b
some_injective a b h = cc

find-accept :
    (h u : Text) (now later : ℕ) (is : List Invitation) (i : Invitation)
    → count (has_hash h) is ≤ 1
    → find (λ i. has_hash h i && is_pending now i) is ≡ some i
    → find (λ i. has_hash h i && is_pending later i) (accept u i.id now is) ≡ none
find-accept h u now later [] i few f = refl
find-accept h u now later (j ∷ js) i few f = elim (Bool-cases (has_hash h j)) [
  | inl e ↦ elim (Bool-cases (is_pending now j)) [
    | inl w ↦
        let same = some_injective j i (ground arith) in
        ground (
          arith,
          find-accept-none h u i.id now later js,
          subst (λ x. text_eq j.id x.id ≡ true) same (text_eq_refl j.id),
        )
    | inr w ↦ ground (arith, find-none h now js)
  ]
  | inr e ↦ elim (Bool-cases (text_eq j.id i.id)) [
    | inl s ↦ ground (arith, find-accept h u now later js i)
    | inr s ↦ ground (arith, find-accept h u now later js i)
  ]
]

find-true :
    (q : Invitation → Bool) (is : List Invitation) (i : Invitation)
    → find q is ≡ some i
    → q i ≡ true
find-true q [] i f = cc
find-true q (j ∷ js) i f = elim (Bool-cases (q j)) [
  | inl e ↦ subst (λ x. q x ≡ true) (some_injective j i (ground arith)) e
  | inr e ↦ find-true q js i (ground arith)
]

text_eq_sym : (s t : Text) → text_eq s t ≡ text_eq t s
text_eq_sym s t = elim (Bool-cases (text_eq s t)) [
  | inl e ↦ subst (λ x. text_eq s x ≡ text_eq x s) ((text_eq_iff s t).0 e) refl
  | inr e ↦ elim (Bool-cases (text_eq t s)) [
    | inl f ↦ subst (λ x. text_eq x t ≡ text_eq t x) ((text_eq_iff t s).0 f) refl
    | inr f ↦ e ∙ sym f
  ]
]

is_key-apart :
    (m n : Membership)
    → is_key n.organization_id n.user_id m ≡ false
    → is_key m.organization_id m.user_id n ≡ false
is_key-apart m n h =
    ground (arith, text_eq_sym m.organization_id n.organization_id, text_eq_sym m.user_id n.user_id)

Unique-add :
    (ms : List Membership) (n : Membership)
    → any (is_key n.organization_id n.user_id) ms ≡ false
    → Unique ms
    → Unique (ms ++ n ∷ [])
Unique-add [] n h v = (tt, tt)
Unique-add (m ∷ ms) n h (a, v) = (
  All-append (λ x. is_key m.organization_id m.user_id x ≡ false) ms (n ∷ []) a
      (is_key-apart m n (ground arith), tt),
  Unique-add ms n (ground arith) v,
)

not-true : (b : Bool) → not b ≡ true → b ≡ false
not-true b h = ground arith

accepted_injective :
    (p q : InvitationPreview) (c d : Database)
    → ◌≡◌ {A = Result (InvitationPreview × Database)} (ok (p, c)) (ok (q, d))
    → c ≡ d
accepted_injective p q c d h = cc

-- Whether the user is an active account whose verified address is the invitation's.
abbrev pub IsRecipient : (lower trim : Text → Text) → Database → Text → Invitation → Type 0
IsRecipient lower trim db u i =
    (p : Person) × (address : Text) × (find (λ r. text_eq r.id u && not r.disabled) db.people
      ≡ some p)
    × (p.email_verified ≡ true)
    × (p.email ≡ some address)
    × (lower (trim address) ≡ i.email)

module _ (parse_email : Text → Option Text) (lower trim hash : Text → Text) where
  recipient-IsRecipient :
      (db : Database) (u : Text) (i : Invitation) {x : Unit}
      → recipient parse_email lower trim hash db u i ≡ ok x
      → IsRecipient lower trim db u i
  unfolding recipient
  recipient-IsRecipient db u i h =
      let (p, finds, h1) = >>=-eq-ok _ _ h in
      let (verified, h2) = require-then p.email_verified email_unverified _ h1 in
      let (address, e, same) = address-eq p.email i h2 in
      (p, address, required-eq-ok _ _ finds, verified, e, same)
    where
      address-eq :
          (o : Option Text) (i : Invitation) {x : Unit}
          → is_recipient parse_email lower trim hash o i ≡ ok x
          → (address : Text) × (o ≡ some address) × (lower (trim address) ≡ i.email)
      address-eq none i h = cc
      address-eq (some []) i h = cc
      address-eq (some (c ∷ s)) i h = (c ∷ s, refl, (text_eq_iff _ _).0 (require-eq-ok _ _ h))

  accept-used :
      (v token : Text) (later : ℕ) (db : Database)
      → is_token token ≡ true
      → find (λ i. has_hash (hash token) i && is_pending later i) db.invitations ≡ none
      → accept_invitation parse_email lower trim hash v token later db
        ≡ err (membership invitation_unavailable)
  unfolding accept_invitation available
  accept-used v token later db t f = rw (t, f) refl

  -- If `acceptInvitation` succeeds, where the memberships have distinct keys and no two invitations
  -- the same token hash: the user is an active account whose verified address is that of an
  -- invitation that was pending; the user has its role in its organisation, and no other membership
  -- has changed; the memberships have distinct keys; and no user can accept the token again.
  pub accept_invitation_lem :
      (u token : Text) (now : ℕ) (db d : Database) (p : InvitationPreview) (v : Text) (later : ℕ)
      → Unique db.memberships
      → count (has_hash (hash token)) db.invitations ≤ 1
      → accept_invitation parse_email lower trim hash u token now db ≡ ok (p, d)
      → ((i : Invitation) × (find (λ i. has_hash (hash token) i && is_pending now i) db.invitations
            ≡ some i)
          × IsRecipient lower trim db u i
          × (d.memberships
              ≡ db.memberships
                ++ record { organization_id = i.organization_id; user_id = u; role = i.role } ∷ []))
        × Unique d.memberships
        × (accept_invitation parse_email lower trim hash v token later d
            ≡ err (membership invitation_unavailable))
  unfolding accept_invitation available
  accept_invitation_lem u token now db d p v later keys few h =
      let (i, finds, h1) = >>=-eq-ok (available parse_email lower trim hash db token now) _ h in
      let (j, again, h2) = >>=-eq-ok (available parse_email lower trim hash db token now) _ h1 in
      let (good, h3) = >>-eq-ok (recipient parse_email lower trim hash db u j) _ h2 in
      let (new, h4) =
        require-then (not (any (is_key j.organization_id u) db.memberships)) already_member _ h3 in
      let (q, previews, h5) =
        >>=-eq-ok
          (preview parse_email lower trim hash
            (accepted_database parse_email lower trim hash u now j db) j)
          _ h4 in
      let (tokens, h6) = require-then (is_token token) invitation_unavailable _ again in
      let found = required-eq-ok _ _ h6 in
      let e = accepted_injective q p _ d h5 in
      (
        (j, found, recipient-IsRecipient db u j good.1, ap (λ x. x.memberships) (sym e)),
        subst (λ x. Unique x.memberships) e (Unique-add db.memberships _ (not-true _ new) keys),
        subst
            (λ x.
              accept_invitation parse_email lower trim hash v token later x
              ≡ err (membership invitation_unavailable))
            e
            (accept-used v token later (accepted_database parse_email lower trim hash u now j db)
              tokens (find-accept (hash token) u now later db.invitations j few found)),
      )
