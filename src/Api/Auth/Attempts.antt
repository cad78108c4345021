-- ===== src/Api/Auth/Attempts.antt =====
-- A login attempt of apps/api/src/postgres-auth-control-plane.ts that has been consumed does not come
-- back, whatever calls follow.
use spectro.Prelude.{
  All, List, [], ◌∷◌, not, filter, ltb, text_eq, ℕ, ◌≤◌, ◌≡◌, refl, sym, ap, subst, Bool, true,
  false, Option, none, some, find, if◌then◌else◌, arith, Bool-cases, inl, inr, Text, is_token,
}
use spectro.Api.Auth.Steps.{
  Step, Steps, creates_attempt, consumes_attempt, finds_user, creates_session, revokes, here, next,
}
use spectro.Api.Tables.{LoginAttempt, ExternalIdentity, Tables}
use spectro.Api.Auth.{
  create_login_attempt, has_state, OidcIdentity, is_attempt, attempt_of, consume_login_attempt,
  find_or_create_user, find_or_insert, create_session, revoke_session, is_out_of_bounds,
}

-- The login attempts are the same.
abbrev pub Keeps : (before after : Tables) → Type 0
Keeps t u = u.login_attempts ≡ t.login_attempts

if-Keeps :
    {A : Type 0} (b : Bool) (t : Tables) (x y : A × Tables)
    → Keeps t x.1
    → Keeps t y.1
    → Keeps t (if b then x else y).1
if-Keeps true t x y h k = h
if-Keeps false t x y h k = k

module _ (hash lower trim : Text → Text) where
  pub create_session-Keeps :
      (token user : Text) (expires_at now : ℕ) (t : Tables)
      → Keeps t (create_session hash token user expires_at now t).1
  unfolding create_session
  create_session-Keeps token user expires_at now t = ground arith

  find_or_insert-Keeps :
      (o : Option ExternalIdentity) (fresh : Text) (i : OidcIdentity) (t : Tables)
      → Keeps t (find_or_insert lower trim o fresh i t).1
  find_or_insert-Keeps none fresh i t = ground arith
  find_or_insert-Keeps (some row) fresh i t = refl

  pub find_or_create_user-Keeps :
      (fresh : Text) (i : OidcIdentity) (t : Tables)
      → Keeps t (find_or_create_user lower trim fresh i t).1
  unfolding find_or_create_user
  find_or_create_user-Keeps fresh i t = elim (Bool-cases (is_out_of_bounds i)) [
    | inl e ↦ rw e refl
    | inr e ↦ rw e (find_or_insert-Keeps _ fresh i t)
  ]

  pub revoke_session-Keeps :
      (token : Text) (now : ℕ) (t : Tables) → Keeps t (revoke_session hash token now t)
  unfolding revoke_session
  revoke_session-Keeps token now t = ground arith

filter-IsSpent :
    (hash : Text → Text) (state : Text) (now later : ℕ) (rest : List LoginAttempt)
    → now ≤ later
    → All
        (λ a. is_attempt hash state later a ≡ false)
        (filter (λ a. not (is_attempt hash state now a)) rest)
filter-IsSpent hash state now later [] h = tt
filter-IsSpent hash state now later (a ∷ rest) h =
    ground (arith, filter-IsSpent hash state now later rest h)

pub consume_login_attempt-IsSpent :
    (hash : Text → Text) (state : Text) (now later : ℕ) (t : Tables)
    → is_token state ≡ true
    → now ≤ later
    → All
        (λ a. is_attempt hash state later a ≡ false)
        (consume_login_attempt hash state now t).1.login_attempts
unfolding consume_login_attempt
consume_login_attempt-IsSpent hash state now later t formed h =
    rw formed (filter-IsSpent hash state now later t.login_attempts h)

-- Where no attempt matches, none is consumed.
spent_attempt :
    (hash : Text → Text) (state : Text) (later : ℕ) (rest : List LoginAttempt)
    → All (λ a. is_attempt hash state later a ≡ false) rest
    → find (is_attempt hash state later) rest ≡ none
spent_attempt hash state later [] h = refl
spent_attempt hash state later (a ∷ rest) (off, h) = rw off (spent_attempt hash state later rest h)

pub spent_consumes :
    (hash : Text → Text) (state : Text) (later : ℕ) (t : Tables)
    → All (λ a. is_attempt hash state later a ≡ false) t.login_attempts
    → (consume_login_attempt hash state later t).0 ≡ none
unfolding consume_login_attempt
spent_consumes hash state later t h = elim (Bool-cases (is_token state)) [
  | inl e ↦ rw e (ap (attempt_of hash) (spent_attempt hash state later t.login_attempts h))
  | inr e ↦ rw e refl
]

All-filtered :
    (P : LoginAttempt → Type 0) (p : LoginAttempt → Bool) (rest : List LoginAttempt)
    → All P rest
    → All P (filter p rest)
All-filtered P p [] h = tt
All-filtered P p (a ∷ rest) (x, h) = elim (Bool-cases (p a)) [
  | inl e ↦ rw e (x, All-filtered P p rest h)
  | inr e ↦ rw e (All-filtered P p rest h)
]

module _ (hash lower trim : Text → Text) where
  -- No attempt is left that a request at the time `later` could consume with the state.
  abbrev pub IsSpent : (state : Text) → (later : ℕ) → Tables → Type 0
  IsSpent state later t = All (λ a. is_attempt hash state later a ≡ false) t.login_attempts

  if-IsSpent :
      (state : Text) (later : ℕ) (b : Bool) {A : Type 0} (x y : A × Tables)
      → IsSpent state later x.1
      → IsSpent state later y.1
      → IsSpent state later (if b then x else y).1
  if-IsSpent state later true x y h k = h
  if-IsSpent state later false x y h k = k

  -- No step creates an attempt for the state.
  abbrev Avoids : (state : Text) → {t u : Tables} → Step hash lower trim t u → Type 0
  Avoids state (creates_attempt input now t) = text_eq (hash input.state) (hash state) ≡ false
  Avoids state (consumes_attempt other now t) = Unit
  Avoids state (finds_user fresh input t) = Unit
  Avoids state (creates_session token user expires_at now t) = Unit
  Avoids state (revokes token now t) = Unit

  abbrev pub NeverCreates : (state : Text) → {t u : Tables} → Steps hash lower trim t u → Type 0
  NeverCreates state here = Unit
  NeverCreates state (next r s) = NeverCreates state r × Avoids state s

  Step-IsSpent :
      (state : Text) (later : ℕ) {t u : Tables} (s : Step hash lower trim t u)
      → Avoids state s
      → IsSpent state later t
      → IsSpent state later u
  unfolding create_login_attempt consume_login_attempt
  Step-IsSpent state later (creates_attempt input now t) new h =
      let live = filter (λ a. not (ltb a.expires_at now)) t.login_attempts in
      let rest = All-filtered _ (λ a. not (ltb a.expires_at now)) t.login_attempts h in
      if-IsSpent state later (has_state hash (hash input.state) live) _ _ rest
        (ground (arith, new), rest)
  Step-IsSpent state later (consumes_attempt other now t) new h =
      if-IsSpent state later (is_token other) _ _
        (All-filtered _ (λ a. not (is_attempt hash other now a)) t.login_attempts h) h
  Step-IsSpent state later (finds_user fresh input t) new h =
      subst (All _) (sym (find_or_create_user-Keeps hash lower trim fresh input t)) h
  Step-IsSpent state later (creates_session token user expires_at now t) new h =
      subst (All _) (sym (create_session-Keeps hash lower trim token user expires_at now t)) h
  Step-IsSpent state later (revokes token now t) new h =
      subst (All _) (sym (revoke_session-Keeps hash lower trim token now t)) h

  pub Steps-IsSpent :
      (state : Text) (later : ℕ) {t u : Tables} (r : Steps hash lower trim t u)
      → NeverCreates state r
      → IsSpent state later t
      → IsSpent state later u
  Steps-IsSpent state later here new h = h
  Steps-IsSpent state later (next r s) (before, new) h =
      Step-IsSpent state later s new (Steps-IsSpent state later r before h)
