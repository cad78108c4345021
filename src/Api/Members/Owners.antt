-- ===== src/Api/Members/Owners.antt =====
-- Who may change a membership, and the owner that every organisation keeps: `#mutateMember` of
-- apps/api/src/postgres-organization-members.ts.
use spectro.Prelude.{
  ok_injective, ◌≡◌, refl, sym, ap, ◌∙◌, Bool, true, false, not, ◌&&◌, ◌||◌, ◌⊎◌, inl, inr, Option,
  none, some, List, [], ◌∷◌, arith, subst, any, find, filter, Text, text_eq, text_eq_iff,
  Bool-cases, All,
}
use spectro.Api.Roles.{OrganizationRole, owner, role_eq, is_next, can_manage_member}
use spectro.Api.Members.{
  ok, ◌>>◌, Person, Membership, Database, MemberScope, is_key, is_active, actor, mutate_found,
  >>=-eq-ok, >>-eq-ok, require-eq-ok, required-eq-ok, is_other_owner, protect_owner, set_role,
  write_member, mutate_member,
}

-- The primary key of `organization_memberships`.
abbrev pub Unique : List Membership → Type 0
Unique [] = Unit
Unique (m ∷ ms) = All (λ n. is_key m.organization_id m.user_id n ≡ false) ms × Unique ms

-- An owner of the organisation whose account is active.
abbrev pub is_active_owner : List Person → Text → Membership → Bool
is_active_owner people o m =
    text_eq m.organization_id o && role_eq m.role owner && is_active m.user_id people

abbrev pub has_active_owner : Database → Text → Bool
has_active_owner db o = any (is_active_owner db.people o) db.memberships

module _ {ℓ} {A : Type ℓ} where
  any-weaken :
      (p q : A → Bool) (xs : List A)
      → ((x : A) → p x ≡ true → q x ≡ true)
      → any p xs ≡ true
      → any q xs ≡ true
  any-weaken p q (x ∷ xs) f h = elim (Bool-cases (p x)) [
    | inl e ↦ ground (arith, f x e)
    | inr e ↦ ground (arith, any-weaken p q xs f)
  ]
  any-weaken p q [] f h = ground arith

  any-filter :
      (p q : A → Bool) (xs : List A) → any (λ x. p x && q x) xs ≡ true → any p (filter q xs) ≡ true
  any-filter p q (x ∷ xs) h = ground (arith, any-filter p q xs)
  any-filter p q [] h = ground arith

module _ (o u : Text) (p : Membership → Bool) where
  -- A row that a change of another row's role keeps.
  any-set_role :
      (next : OrganizationRole) (ms : List Membership)
      → any (λ m. p m && not (is_key o u m)) ms ≡ true
      → any p (set_role o u next ms) ≡ true
  any-set_role next [] h = ground arith
  any-set_role next (m ∷ ms) h = elim (Bool-cases (is_key o u m)) [
    | inl e ↦ ground (arith, any-set_role next ms)
    | inr e ↦ ground (arith, any-set_role next ms)
  ]

  any-other :
      (ms : List Membership)
      → any p ms ≡ true
      → All (λ m. is_key o u m ≡ false) ms
      → any (λ m. p m && not (is_key o u m)) ms ≡ true
  any-other [] h a = h
  any-other (m ∷ ms) h a = ground (arith, any-other ms, a.0, a.1)

pub is_key-same :
    (o u : Text) (m n : Membership)
    → is_key o u m ≡ true
    → is_key m.organization_id m.user_id n ≡ is_key o u n
is_key-same o u m n h =
    ap (λ r. text_eq n.organization_id r && text_eq n.user_id m.user_id)
      ((text_eq_iff m.organization_id o).0 (ground arith))
    ∙ ap (λ r. text_eq n.organization_id o && text_eq n.user_id r)
        ((text_eq_iff m.user_id u).0 (ground arith))

pub All-is_key :
    (o u : Text) (m : Membership) (ms : List Membership)
    → is_key o u m ≡ true
    → All (λ n. is_key m.organization_id m.user_id n ≡ false) ms
    → All (λ n. is_key o u n ≡ false) ms
All-is_key o u m [] h a = tt
All-is_key o u m (n ∷ ms) h (e, a) = (sym (is_key-same o u m n h) ∙ e, All-is_key o u m ms h a)

pub find-head :
    (p q : Membership → Bool) (m t : Membership) (ms : List Membership)
    → find q (m ∷ ms) ≡ some t
    → q m ≡ true
    → p m ≡ p t
find-head p q m t ms f h = ground arith

-- A row other than the one of the key.
any-Unique :
    (o u : Text) (p : Membership → Bool) (ms : List Membership) (t : Membership)
    → Unique ms
    → find (is_key o u) ms ≡ some t
    → p t ≡ false
    → any p ms ≡ true
    → any (λ m. p m && not (is_key o u m)) ms ≡ true
any-Unique o u p [] t v f n h = h
any-Unique o u p (m ∷ ms) t v f n h = elim (Bool-cases (is_key o u m)) [
  | inl e ↦
      ground
        (arith, find-head p (is_key o u) m t ms f e, any-other o u p ms, All-is_key o u m ms e v.0)
  | inr e ↦ ground (arith, any-Unique o u p ms t v.1)
]

-- The checks that a change of a membership has passed, and what it has done.
pub record Mutation (input : MemberScope) (target : Text) (next : Option OrganizationRole)
    (db d : Database) : Type 0 where
  pub role : OrganizationRole
  pub found : Membership
  pub acts : actor db input true ≡ ok role
  pub finds : find (is_key input.organization_id target) db.memberships ≡ some found
  pub allowed : can_manage_member role found.role next ≡ true
  pub result : mutate_found input target next found.role db ≡ ok d

pub mutate_member-Mutation :
    (input : MemberScope) (target : Text) (next expected : Option OrganizationRole)
    (db d : Database)
    → mutate_member input target next expected db ≡ ok d
    → Mutation input target next db d
unfolding mutate_member
mutate_member-Mutation input target next expected db d h =
    let (role, acts, h1) = >>=-eq-ok _ _ h in
    let (found, finds, h2) = >>=-eq-ok _ _ h1 in
    let (allowed, h3) = >>-eq-ok _ _ h2 in
    let (same, h4) = >>-eq-ok _ _ h3 in
    record {
      role = role;
      found = found;
      acts = acts;
      finds = required-eq-ok _ _ finds;
      allowed = require-eq-ok _ _ allowed.1;
      result = h4;
    }

pub Mutation-result :
    (input : MemberScope) (target : Text) (next : Option OrganizationRole)
    (previous : OrganizationRole) (db d : Database)
    → mutate_found input target next previous db ≡ ok d
    → (db ≡ d)
      ⊎ ((write_member input target previous next db ≡ d)
          × ((not (role_eq previous owner)
                || any (is_other_owner db.people input.organization_id target) db.memberships)
              ≡ true))
unfolding protect_owner
Mutation-result input target next previous db d h = elim (Bool-cases (is_next next previous)) [
  | inl e ↦ inl (ground arith)
  | inr e ↦
      let safe = >>-eq-ok _ _ (the-rest e) in
      inr (ok_injective _ _ safe.1, require-eq-ok _ _ safe.0.1)
]
  where
    the-rest :
        is_next next previous ≡ false
        → (protect_owner db input.organization_id target previous
            >> ok (write_member input target previous next db))
          ≡ ok d
    the-rest e = ground arith

find-true :
    (q : Membership → Bool) (ms : List Membership) (t : Membership)
    → find q ms ≡ some t
    → q t ≡ true
find-true q [] t h = cc
find-true q (m ∷ ms) t h = elim (Bool-cases (q m)) [
  | inl e ↦ ground (arith, find-head q q m t ms h e)
  | inr e ↦ ground (arith, find-true q ms t)
]

other_owner-owner :
    (people : List Person) (o u x : Text) (m : Membership)
    → is_other_owner people o u m ≡ true
    → x ≡ o
    → (is_active_owner people x m && not (is_key o u m)) ≡ true
other_owner-owner people o u x m h e = rw e (ground arith)

-- An owner other than the target: the one that protects the target's organisation, or any owner.
kept-owner :
    (db : Database) (o u x : Text) (t : Membership)
    → Unique db.memberships
    → find (is_key o u) db.memberships ≡ some t
    → has_active_owner db x ≡ true
    → (not (role_eq t.role owner) || any (is_other_owner db.people o u) db.memberships) ≡ true
    → any (λ m. is_active_owner db.people x m && not (is_key o u m)) db.memberships ≡ true
kept-owner db o u x t v f own safe = elim (Bool-cases (is_active_owner db.people x t)) [
  | inr e ↦ any-Unique o u (is_active_owner db.people x) db.memberships t v f e own
  | inl e ↦
      any-weaken (is_other_owner db.people o u)
        (λ m. is_active_owner db.people x m && not (is_key o u m)) db.memberships
        (λ m h. other_owner-owner db.people o u x m h (
          sym ((text_eq_iff t.organization_id x).0 (ground arith))
          ∙ (text_eq_iff t.organization_id o).0
              (ground (arith, find-true (is_key o u) db.memberships t f))))
        (ground arith)
]

module _ (people : List Person) (o u : Text) where
  -- After the write, a row that was not the target's is still there.
  any-write :
      (x : Text) (input : MemberScope) (previous : OrganizationRole)
      (next : Option OrganizationRole) (db : Database)
      → input.organization_id ≡ o
      → db.people ≡ people
      → any (λ m. is_active_owner people x m && not (is_key o u m)) db.memberships ≡ true
      → has_active_owner (write_member input u previous next db) x ≡ true
  any-write x input previous none db eo ep h =
      rw (eo, ep) (any-filter (is_active_owner people x) (λ m. not (is_key o u m)) db.memberships h)
  any-write x input previous (some next) db eo ep h =
      rw (eo, ep) (any-set_role o u (is_active_owner people x) next db.memberships h)

-- Where the rows have distinct keys, a change of role and a removal leave every organisation that
-- has an active owner with an active owner.
pub mutate_member-keeps_owner :
    (input : MemberScope) (target : Text) (next expected : Option OrganizationRole)
    (db d : Database) (o : Text)
    → Unique db.memberships
    → has_active_owner db o ≡ true
    → mutate_member input target next expected db ≡ ok d
    → has_active_owner d o ≡ true
mutate_member-keeps_owner input target next expected db d o v own h =
    let m = mutate_member-Mutation input target next expected db d h in
    elim (Mutation-result input target next m.found.role db d m.result) [
      | inl e ↦ subst (λ x. has_active_owner x o ≡ true) e own
      | inr (e, safe) ↦
          subst (λ x. has_active_owner x o ≡ true) e
            (any-write db.people input.organization_id target o input m.found.role next db refl refl
              (kept-owner db input.organization_id target o m.found v m.finds own safe))
    ]
