-- ===== src/Api/Auth.antt =====
-- apps/api/src/postgres-auth-control-plane.ts: login attempts, users and console sessions. A statement
-- is its effect on the tables; an insert of a primary key that exists is an error, as in PostgreSQL.
-- An error value is a thrown error, and the tables beside it are what the statements before it left.
pub mod Attempts
pub mod Sessions
pub mod Steps
use spectro.Prelude.{
  ℕ, ◌+◌, Bool, true, false, not, ◌&&◌, ◌||◌, Option, none, some, List, [], ◌∷◌, ◌++◌, map, ltb,
  leb, if◌then◌else◌, is_some, length, filter, find, any, Text, text, text_eq, is_token, Either, ok,
  err,
}
use spectro.Api.Roles.{OrganizationRole, OrganizationAction, organization_role_allows}
use spectro.Api.Members.{Person, Membership, Database, is_active}
use spectro.Api.Tables.{
  ReturnPath, LoginAttempt, ExternalIdentity, ConsoleSession, Project, ProjectEnvironment, Tables,
}

abbrev pub login_attempt_ms : ℕ
login_attempt_ms = 600000

pub data AuthError : Type 0 where
  key_exists identity_invalid expiration_past user_unavailable : AuthError

pub record LoginInput : Type 0 where
  pub state : Text
  pub code_verifier : Text
  pub nonce : Text
  pub return_path : ReturnPath

-- What `consumeLoginAttempt` returns; its absent `returnPath` is the root.
pub record Attempt : Type 0 where
  pub code_verifier : Text
  pub nonce : Text
  pub return_path : ReturnPath

pub record OidcIdentity : Type 0 where
  pub issuer : Text
  pub subject : Text
  pub email : Option Text
  pub email_verified : Bool

abbrev pub has_session : Text → List ConsoleSession → Bool
has_session h sessions = any (λ s. text_eq s.token_hash h) sessions

-- A membership of the user in the organisation of the project, in which the environment exists.
abbrev pub grants : (project environment user : Text) → Tables → Membership → Bool
grants project environment user t m =
    text_eq m.user_id user
    && any (λ p. text_eq p.id project && text_eq p.organization_id m.organization_id) t.projects
    && any (λ e. text_eq e.project_id project && text_eq e.name environment) t.environments

abbrev pub allowed : OrganizationAction → Option Membership → Bool
allowed action none = false
allowed action (some m) = organization_role_allows m.role action

-- `hash` is the SHA-256 digest of a token.
module _ (hash : Text → Text) where
  abbrev pub is_attempt : (state : Text) → (now : ℕ) → LoginAttempt → Bool
  is_attempt state now a = text_eq a.state_hash (hash state) && ltb now a.expires_at

  abbrev pub has_state : Text → List LoginAttempt → Bool
  has_state h attempts = any (λ a. text_eq a.state_hash h) attempts

  abbrev pub attempt_row : LoginInput → ℕ → LoginAttempt
  attempt_row input now = record {
    state_hash = hash input.state;
    code_verifier = input.code_verifier;
    nonce = input.nonce;
    expires_at = now + login_attempt_ms;
    return_path = input.return_path;
  }

  unfoldable pub create_login_attempt :
      LoginInput → (now : ℕ) → Tables → Either AuthError (Unit {0}) × Tables
  create_login_attempt input now t =
      let live = filter (λ a. not (ltb a.expires_at now)) t.login_attempts in
      if has_state (hash input.state) live
      then (err key_exists, record t { login_attempts = live })
      else (ok tt, record t { login_attempts = attempt_row input now ∷ live })

  abbrev pub attempt_of : Option LoginAttempt → Option Attempt
  attempt_of none = none
  attempt_of (some a) =
      some
        (record { code_verifier = a.code_verifier; nonce = a.nonce; return_path = a.return_path })

  -- `DELETE … RETURNING`
  unfoldable pub consume_login_attempt :
      (state : Text) → (now : ℕ) → Tables → Option Attempt × Tables
  consume_login_attempt state now t =
      if is_token state
      then (
        attempt_of (find (is_attempt state now) t.login_attempts),
        record t { login_attempts = filter (λ a. not (is_attempt state now a)) t.login_attempts },
      )
      else (none, t)

abbrev pub is_out_of_bounds : OidcIdentity → Bool
is_out_of_bounds input =
    ltb (length input.issuer) 1
    || ltb 2048 (length input.issuer)
    || ltb (length input.subject) 1
    || ltb 255 (length input.subject)

-- `lower` and `trim` are `toLowerCase` and `trim`.
module _ (lower trim : Text → Text) where
  abbrev short_email : Option Text → Option Text
  short_email none = none
  short_email (some e) = if leb (length e) 320 then some (lower (trim e)) else none

  abbrev pub is_identity : OidcIdentity → ExternalIdentity → Bool
  is_identity input i = text_eq i.issuer input.issuer && text_eq i.subject input.subject

  abbrev with_email : (user : Text) → Option Text → Bool → List Person → List Person
  with_email user email verified people =
      map
        (λ p.
          if text_eq p.id user then record p { email = email; email_verified = verified } else p)
        people

  abbrev write_people : List Person → Tables → Tables
  write_people people t = record t { members = record t.members { people = people } }

  -- The transaction, for the row of the identity and the identifier of a new user.
  abbrev pub find_or_insert :
      Option ExternalIdentity
      → (fresh : Text) → OidcIdentity
      → Tables
      → Either AuthError Text × Tables
  find_or_insert (some row) fresh input t =
      let email = short_email input.email in
      let verified = is_some email && input.email_verified in
      (ok row.user_id, write_people (with_email row.user_id email verified t.members.people) t)
  find_or_insert none fresh input t =
      let email = short_email input.email in
      let verified = is_some email && input.email_verified in
      let person : Person = record {
        id = fresh;
        email = email;
        email_verified = verified;
        disabled = false;
      } in
      let identity : ExternalIdentity = record {
        issuer = input.issuer;
        subject = input.subject;
        user_id = fresh;
      } in
      let added = write_people (person ∷ t.members.people) t in
      if any (λ p. text_eq p.id fresh) t.members.people
      then (err key_exists, t)
      else (ok fresh, record added { identities = identity ∷ t.identities })

  unfoldable pub find_or_create_user :
      (fresh : Text) → OidcIdentity → Tables → Either AuthError Text × Tables
  find_or_create_user fresh input t =
      if is_out_of_bounds input
      then (err identity_invalid, t)
      else find_or_insert (find (is_identity input) t.identities) fresh input t

module _ (hash : Text → Text) where
  abbrev pub session_row : (user token : Text) → (expires_at : ℕ) → ConsoleSession
  session_row user token expires_at = record {
    token_hash = hash token;
    user_id = user;
    expires_at = expires_at;
    revoked_at = none;
  }

  -- `token` is the random one. A user that is missing or disabled gives no row.
  unfoldable pub create_session :
      (token user : Text) → (expires_at now : ℕ) → Tables → Either AuthError Text × Tables
  create_session token user expires_at now t =
      if leb expires_at now
      then (err expiration_past, t)
      else if not (is_active user t.members.people)
      then (err user_unavailable, t)
      else if has_session (hash token) t.sessions
      then (err key_exists, t)
      else (ok token, record t { sessions = session_row user token expires_at ∷ t.sessions })

  abbrev pub is_live : (token : Text) → (now : ℕ) → List Person → ConsoleSession → Bool
  is_live token now people s =
      text_eq s.token_hash (hash token)
      && ltb now s.expires_at
      && not (is_some s.revoked_at)
      && is_active s.user_id people

  abbrev pub user_of : Option ConsoleSession → Option Text
  user_of none = none
  user_of (some s) = some s.user_id

  unfoldable pub resolve_session : (token : Text) → (now : ℕ) → Tables → Option Text
  resolve_session token now t =
      if is_token token
      then user_of (find (is_live token now t.members.people) t.sessions)
      else none

  abbrev authorized :
      Option Text → (project environment : Text) → OrganizationAction → Tables → Option Text
  authorized none project environment action t = none
  authorized (some user) project environment action t =
      if allowed action (find (grants project environment user t) t.members.memberships)
      then some user
      else none

  unfoldable pub authorize_project :
      (token project environment : Text) → OrganizationAction → (now : ℕ) → Tables → Option Text
  authorize_project token project environment action now t =
      authorized (resolve_session token now t) project environment action t

  abbrev pub revoke_row : (token : Text) → (now : ℕ) → ConsoleSession → ConsoleSession
  revoke_row token now s =
      if text_eq s.token_hash (hash token) && not (is_some s.revoked_at)
      then record s { revoked_at = some now }
      else s

  unfoldable pub revoke_session : (token : Text) → (now : ℕ) → Tables → Tables
  revoke_session token now t =
      if is_token token then record t { sessions = map (revoke_row token now) t.sessions } else t
