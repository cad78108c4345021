-- ===== src/Api/Keys/Revoked.antt =====
-- A key that apps/api/src/postgres-project-write-keys.ts has revoked stays so.
use spectro.Prelude.{
  ℕ, ◌≡◌, ◌⊎◌, refl, sym, ap, subst, ◌∙◌, Bool, true, false, ◌&&◌, ◌||◌, Option, none, some, List,
  [], ◌∷◌, map, find, any, All, if◌then◌else◌, arith, Bool-cases, inl, inr, Text, text_eq,
  text_eq_iff, text_eq_refl, ok, err, require-then, required-then, ok_injective,
}
use spectro.Api.Tables.{Project, WriteKey, Tables}
use spectro.Ingest.{unknown}
use spectro.Api.Keys.{
  KeyError, access_denied, not_found, ProjectScope, KeySummary, NewKey, OriginParts,
  require_project_admin, is_project, is_usable, names_key, revoke_key_row, revoke_named, create_key,
  revoke_key, is_write_key, authorize_key, is_keyed,
}
use spectro.Api.Keys.Grants.{create_key-ok}

-- The keys after a revocation: those named are revoked, or were so already.
abbrev IsRevocation :
    ProjectScope → (id : Text) → (now : ℕ) → (before after : List WriteKey) → Type 0
IsRevocation input id now before after =
    (after ≡ map (revoke_key_row input id now) before)
    ⊎ ((after ≡ before) × (any (λ k. names_key input id k && is_usable k) before ≡ false))

revoked-cases :
    (b c : Bool) (x y u : Tables) (e : KeyError)
    → (if b then ok x else if c then ok y else err e) ≡ ok u
    → (x ≡ u) ⊎ ((b ≡ false) × (y ≡ u))
revoked-cases true c x y u e h = inl (ok_injective x u h)
revoked-cases false true x y u e h = inr (refl, ok_injective y u h)
revoked-cases false false x y u e h = cc

revoke_named-IsRevocation :
    (input : ProjectScope) (p : Project) (id : Text) (now : ℕ) (t u : Tables)
    → revoke_named input p id now t ≡ ok u
    → IsRevocation input id now t.write_keys u.write_keys
revoke_named-IsRevocation input p id now t u h =
    elim (revoked-cases (any (λ k. names_key input id k && is_usable k) t.write_keys) _ _ t u
      not_found h) [
        | inl e ↦ inl (sym (ap (λ x. x.write_keys) e))
        | inr (b, e) ↦ inr (sym (ap (λ x. x.write_keys) e), b)
      ]

revoke_key-IsRevocation :
    (input : ProjectScope) (id : Text) (now : ℕ) (t u : Tables)
    → revoke_key input id now t ≡ ok u
    → IsRevocation input id now t.write_keys u.write_keys
unfolding revoke_key require_project_admin
revoke_key-IsRevocation input id now t u h =
    let (_, h1) = require-then _ access_denied _ h in
    let (p, _, h2) =
      required-then (find (is_project input.project_id) t.projects) access_denied _ h1 in
    revoke_named-IsRevocation input p id now t u h2

module _ (hash : Text → Text) where
  -- The transactions that change the keys.
  pub data KeyStep : Tables → Tables → Type 0 where
    creates :
        (input : ProjectScope) (new : NewKey) (id key : Text) (now : ℕ) (t u : Tables)
        (m : KeySummary)
        → create_key hash input new id key now t ≡ ok (m, u)
        → KeyStep t u
    revokes :
        (input : ProjectScope) (id : Text) (now : ℕ) (t u : Tables)
        → revoke_key input id now t ≡ ok u
        → KeyStep t u

  pub data KeySteps (t : Tables) : Tables → Type 0 where
    here : KeySteps t t
    next : {u v : Tables} → KeySteps t u → KeyStep u v → KeySteps t v

  abbrev is_of : Text → WriteKey → Bool
  is_of key k = text_eq k.verifier (hash key)

  -- A row of the key exists, and `P` holds of each.
  abbrev Holds : Text → (WriteKey → Type 0) → List WriteKey → Type 0
  Holds key P ks = (any (is_of key) ks ≡ true) × All (λ k. is_of key k ≡ true → P k) ks

  is_taken :
      (x y id other : Text) (ks : List WriteKey)
      → x ≡ y
      → any (λ k. text_eq k.id id || text_eq k.verifier x) ks ≡ false
      → any (λ k. text_eq k.verifier y) ks ≡ true
      → ⊥
  is_taken x y id other [] same free one = cc
  is_taken x y id other (k ∷ ks) same free one = ground (arith, is_taken x y id other ks same)

  free_All :
      (id h : Text) (P : WriteKey → Type 0) (ks : List WriteKey)
      → any (λ k. text_eq k.id id || text_eq k.verifier h) ks ≡ false
      → All (λ k. text_eq k.verifier h ≡ true → P k) ks
  free_All id h P [] free = tt
  free_All id h P (k ∷ ks) free = (λ same. absurd (ground arith), free_All id h P ks (ground arith))

  revoke_key_row-verifier :
      (input : ProjectScope) (id : Text) (now : ℕ) (k : WriteKey)
      → (revoke_key_row input id now k).verifier ≡ k.verifier
  revoke_key_row-verifier input id now k = ground arith

  any-map :
      (key : Text) (input : ProjectScope) (id : Text) (now : ℕ) (ks : List WriteKey)
      → any (is_of key) (map (revoke_key_row input id now) ks) ≡ any (is_of key) ks
  any-map key input id now [] = refl
  any-map key input id now (k ∷ ks) =
      rw (revoke_key_row-verifier input id now k, any-map key input id now ks) refl

  All-map_revoked :
      (key : Text) (P Q : WriteKey → Type 0) (input : ProjectScope) (id : Text) (now : ℕ)
      → ((k : WriteKey) → P k → Q (revoke_key_row input id now k))
      → (ks : List WriteKey) → All (λ k. is_of key k ≡ true → P k) ks
      → All (λ k. is_of key k ≡ true → Q k) (map (revoke_key_row input id now) ks)
  All-map_revoked key P Q input id now step [] h = tt
  All-map_revoked key P Q input id now step (k ∷ ks) (p, h) = (
    λ e.
        step k
          (p (subst (λ v. text_eq v (hash key) ≡ true) (revoke_key_row-verifier input id now k) e)),
    All-map_revoked key P Q input id now step ks h,
  )

  revocation-Holds :
      (key : Text) (P Q : WriteKey → Type 0) (input : ProjectScope) (id : Text) (now : ℕ)
      → ((k : WriteKey) → P k → Q (revoke_key_row input id now k))
      → ((k : WriteKey) → P k → names_key input id k && is_usable k ≡ false → Q k)
      → (before after : List WriteKey) → IsRevocation input id now before after
      → Holds key P before
      → Holds key Q after
  revocation-Holds key P Q input id now step idle before after (inl e) (one, h) =
      subst (Holds key Q) (sym e)
        (any-map key input id now before ∙ one, All-map_revoked key P Q input id now step before h)
  revocation-Holds key P Q input id now step idle before after (inr (e, none_named)) (one, h) =
      subst (Holds key Q) (sym e) (one, All_idle before none_named h)
    where
      All_idle :
          (ks : List WriteKey)
          → any (λ k. names_key input id k && is_usable k) ks ≡ false
          → All (λ k. is_of key k ≡ true → P k) ks
          → All (λ k. is_of key k ≡ true → Q k) ks
      All_idle [] b h = tt
      All_idle (k ∷ ks) b (p, h) =
          (λ e. idle k (p e) (ground (arith, b)), All_idle ks (ground (arith, b)) h)

  module _ (key : Text) (P : WriteKey → Type 0)
      (stable : (k : WriteKey) (at : ℕ) → P k → P (record k { revoked_at = some at })) where
    revoke_key_row-P :
        (input : ProjectScope) (id : Text) (now : ℕ) (k : WriteKey)
        → P k
        → P (revoke_key_row input id now k)
    revoke_key_row-P input id now k p = elim (Bool-cases (names_key input id k && is_usable k)) [
      | inl e ↦ rw e (stable k now p)
      | inr e ↦ rw e p
    ]

    KeyStep-Holds :
        {t u : Tables} → KeyStep t u → Holds key P t.write_keys → Holds key P u.write_keys
    KeyStep-Holds (creates input new id other now t u m h) (one, all) =
        let (_, free, is) = create_key-ok hash input new id other now t u m h in
        subst (Holds key P) (sym is) (
          ground (arith, one),
          (
            λ same. absurd (
                is_taken (hash other) (hash key) id other t.write_keys
                  ((text_eq_iff (hash other) (hash key)).0 same) free one),
            all,
          ),
        )
    KeyStep-Holds (revokes input id now t u h) k =
        revocation-Holds key P P input id now (revoke_key_row-P input id now) (λ k p _. p)
          t.write_keys u.write_keys (revoke_key-IsRevocation input id now t u h) k

    KeySteps-Holds :
        {t u : Tables} → KeySteps t u → Holds key P t.write_keys → Holds key P u.write_keys
    KeySteps-Holds here p = p
    KeySteps-Holds (next r s) p = KeyStep-Holds s (KeySteps-Holds r p)

  no_row-answer :
      (parse_url : Text → Option OriginParts) (key : Text) (ks : List WriteKey)
      → All (λ k. is_of key k ≡ true → is_usable k ≡ false) ks
      → find (is_keyed hash parse_url key) ks ≡ none
  no_row-answer parse_url key [] h = refl
  no_row-answer parse_url key (k ∷ ks) (p, h) = elim (Bool-cases (is_of key k)) [
    | inl e ↦ rw (e, p e, find) (no_row-answer parse_url key ks h)
    | inr e ↦ rw (e, find) (no_row-answer parse_url key ks h)
  ]

  -- The identifier and the scope of a key's row.
  abbrev IsNamed : ProjectScope → (id : Text) → WriteKey → Type 0
  IsNamed input id k =
      (k.id ≡ id) × (k.project_id ≡ input.project_id) × (k.environment ≡ input.environment)

  revoked_row :
      (again : ProjectScope) (id : Text) (now : ℕ) (k : WriteKey)
      → IsNamed again id k
      → is_usable (revoke_key_row again id now k) ≡ false
  revoked_row again id now k (i, p, e) =
      let named : names_key again id k ≡ true =
        rw (i, p, e, text_eq_refl id, text_eq_refl again.project_id, text_eq_refl again.environment)
          refl in
      elim (Bool-cases (is_usable k)) [ inl u ↦ rw (named, u) refl | inr u ↦ rw (named, u) u ]

  idle_row :
      (again : ProjectScope) (id : Text) (k : WriteKey)
      → IsNamed again id k
      → names_key again id k && is_usable k ≡ false
      → is_usable k ≡ false
  idle_row again id k (i, p, e) h =
      let named : names_key again id k ≡ true =
        rw (i, p, e, text_eq_refl id, text_eq_refl again.project_id, text_eq_refl again.environment)
          refl in
      ground (arith, h, named)

  -- Once a key of a project and environment has been revoked there, by whomever may, ingestion never
  -- knows it again, whatever keys are created and revoked before and after.
  pub revoke_key-final :
      (parse_url : Text → Option OriginParts) (input again : ProjectScope) (new : NewKey)
      (id key : Text) (now at : ℕ) (m : KeySummary) (t u v w x : Tables)
      → create_key hash input new id key now t ≡ ok (m, u)
      → KeySteps u v
      → again.project_id ≡ input.project_id
      → again.environment ≡ input.environment
      → revoke_key again id at v ≡ ok w
      → KeySteps w x
      → authorize_key hash parse_url x key ≡ unknown
  unfolding authorize_key
  revoke_key-final parse_url input again new id key now at m t u v w x made before project
        environment revoked after =
      let (_, free, is) = create_key-ok hash input new id key now t u m made in
      let first : Holds key (IsNamed input id) u.write_keys =
        subst (Holds key (IsNamed input id)) (sym is) (
          rw (text_eq_refl (hash key)) refl,
          ((λ _. (refl, refl, refl)), free_All id (hash key) _ t.write_keys free),
        ) in
      let named = KeySteps-Holds key (IsNamed input id) (λ k at p. p) before first in
      let to_again : (k : WriteKey) → IsNamed input id k → IsNamed again id k =
        λ k p. (p.0, p.1 ∙ sym project, p.2 ∙ sym environment) in
      let gone =
        revocation-Holds key (IsNamed input id) (λ k. is_usable k ≡ false) again id at
          (λ k p. revoked_row again id at k (to_again k p))
          (λ k p idle. idle_row again id k (to_again k p) idle) v.write_keys w.write_keys
          (revoke_key-IsRevocation again id at v w revoked) named in
      let still = KeySteps-Holds key (λ k. is_usable k ≡ false) (λ k at p. refl) after gone in
      elim (Bool-cases (is_write_key key)) [
        | inl e ↦ rw (e, no_row-answer parse_url key x.write_keys still.1) refl
        | inr e ↦ rw e refl
      ]
