-- ===== src/Api/Auth/Steps.antt =====
-- Any sequence of calls of apps/api/src/postgres-auth-control-plane.ts, and what it keeps of the
-- sessions of one token.
use spectro.Prelude.{
  ℕ, ◌≡◌, refl, sym, ap, subst, ◌∙◌, Bool, true, false, not, ◌&&◌, Option, none, some, List, [],
  ◌∷◌, leb, if◌then◌else◌, is_some, map, find, All, arith, Bool-cases, inl, inr, Text, text_eq,
  text_eq_iff, is_token, err,
}
use spectro.Api.Members.{is_active}
use spectro.Api.Tables.{ConsoleSession, ExternalIdentity, Tables}
use spectro.Api.Auth.{
  LoginInput, OidcIdentity, has_session, create_login_attempt, consume_login_attempt,
  find_or_insert, find_or_create_user, create_session, revoke_session, revoke_row, identity_invalid,
  expiration_past, user_unavailable, is_identity, is_out_of_bounds,
}

true_ne_false : true ≡ false → ⊥
true_ne_false h = cc

module _ (hash lower trim : Text → Text) where
  pub data Step : Tables → Tables → Type 0 where
    creates_attempt :
        (input : LoginInput) (now : ℕ) (t : Tables)
        → Step t (create_login_attempt hash input now t).1
    consumes_attempt :
        (state : Text) (now : ℕ) (t : Tables) → Step t (consume_login_attempt hash state now t).1
    finds_user :
        (fresh : Text) (input : OidcIdentity) (t : Tables)
        → Step t (find_or_create_user lower trim fresh input t).1
    creates_session :
        (token user : Text) (expires_at now : ℕ) (t : Tables)
        → Step t (create_session hash token user expires_at now t).1
    revokes : (token : Text) (now : ℕ) (t : Tables) → Step t (revoke_session hash token now t)

  pub data Steps (t : Tables) : Tables → Type 0 where
    here : Steps t t
    next : {u v : Tables} → Steps t u → Step u v → Steps t v

  -- A session of the digest `h` exists, and `P` holds of each.
  abbrev pub Holds : Text → (ConsoleSession → Type 0) → List ConsoleSession → Type 0
  Holds h P sessions =
      (has_session h sessions ≡ true) × All (λ s. text_eq s.token_hash h ≡ true → P s) sessions

  revoke_row-hash :
      (token : Text) (now : ℕ) (s : ConsoleSession)
      → (revoke_row hash token now s).token_hash ≡ s.token_hash
  revoke_row-hash token now s = ground arith

  module _ (h : Text) (P : ConsoleSession → Type 0)
      (stable : (s : ConsoleSession) (now : ℕ) → P s → P (record s { revoked_at = some now })) where
    revoke_row-P :
        (token : Text) (now : ℕ) (s : ConsoleSession) → P s → P (revoke_row hash token now s)
    revoke_row-P token now s p =
        elim (Bool-cases (text_eq s.token_hash (hash token) && not (is_some s.revoked_at))) [
          | inl e ↦ rw e (stable s now p)
          | inr e ↦ rw e p
        ]

    any-map :
        (token : Text) (now : ℕ) (ss : List ConsoleSession)
        → has_session h (map (revoke_row hash token now) ss) ≡ has_session h ss
    any-map token now [] = refl
    any-map token now (s ∷ ss) = rw (revoke_row-hash token now s, any-map token now ss) refl

    All-map_revoked :
        (token : Text) (now : ℕ) (ss : List ConsoleSession)
        → All (λ s. text_eq s.token_hash h ≡ true → P s) ss
        → All (λ s. text_eq s.token_hash h ≡ true → P s) (map (revoke_row hash token now) ss)
    All-map_revoked token now [] p = tt
    All-map_revoked token now (s ∷ ss) (p, ps) = (
      λ e.
          revoke_row-P token now s
            (p (subst (λ x. text_eq x h ≡ true) (revoke_row-hash token now s) e)),
      All-map_revoked token now ss ps,
    )

    pub map-Holds :
        (token : Text) (now : ℕ) (ss : List ConsoleSession)
        → Holds h P ss
        → Holds h P (map (revoke_row hash token now) ss)
    map-Holds token now ss (has_one, all) =
        (any-map token now ss ∙ has_one, All-map_revoked token now ss all)

    if-Holds :
        (b : Bool) {A : Type 0} (x y : A × Tables)
        → Holds h P x.1.sessions
        → Holds h P y.1.sessions
        → Holds h P (if b then x else y).1.sessions
    if-Holds true x y p q = p
    if-Holds false x y p q = q

    find_or_insert-Holds :
        (o : Option ExternalIdentity) (fresh : Text) (input : OidcIdentity) (t : Tables)
        → Holds h P t.sessions
        → Holds h P (find_or_insert lower trim o fresh input t).1.sessions
    find_or_insert-Holds none fresh input t p = if-Holds _ _ _ p p
    find_or_insert-Holds (some row) fresh input t p = p

    create_session-Holds :
        (token user : Text) (expires_at now : ℕ) (t : Tables)
        → Holds h P t.sessions
        → Holds h P (create_session hash token user expires_at now t).1.sessions
    unfolding create_session
    create_session-Holds token user expires_at now t (has_one, all) =
        if-Holds (leb expires_at now) (err expiration_past, t) _ (has_one, all)
          (if-Holds (not (is_active user t.members.people)) (err user_unavailable, t) _
            (has_one, all)
            (elim (Bool-cases (has_session (hash token) t.sessions)) [
              | inl e ↦ rw e (has_one, all)
              | inr e ↦ rw e (
                ground (arith, has_one),
                (
                  λ same.
                      let equal = (text_eq_iff (hash token) h).0 same in
                      absurd (
                        true_ne_false
                          (sym has_one ∙ ap (λ x. has_session x t.sessions) (sym equal) ∙ e)),
                  all,
                ),
              )
            ]))

    Step-Holds : {t u : Tables} → Step t u → Holds h P t.sessions → Holds h P u.sessions
    unfolding create_login_attempt consume_login_attempt find_or_create_user create_session
        revoke_session
    Step-Holds (creates_attempt input now t) p = if-Holds _ _ _ p p
    Step-Holds (consumes_attempt state now t) p = if-Holds _ _ _ p p
    Step-Holds (finds_user fresh input t) p =
        if-Holds (is_out_of_bounds input) (err identity_invalid, t)
          (find_or_insert lower trim (find (is_identity lower trim input) t.identities) fresh input
            t)
          p (find_or_insert-Holds _ fresh input t p)
    Step-Holds (creates_session token user expires_at now t) p =
        create_session-Holds token user expires_at now t p
    Step-Holds (revokes token now t) p = elim (Bool-cases (is_token token)) [
      | inl e ↦ rw e (map-Holds token now t.sessions p)
      | inr e ↦ rw e p
    ]

    pub Steps-Holds : {t u : Tables} → Steps t u → Holds h P t.sessions → Holds h P u.sessions
    Steps-Holds here p = p
    Steps-Holds (next r s) p = Step-Holds s (Steps-Holds r p)
