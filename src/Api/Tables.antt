-- ===== src/Api/Tables.antt =====
-- The rows of the control plane of apps/api that the stores of sign-in, keys and workspaces use beside
-- the `Database` of the member store.
use spectro.Prelude.{ℕ, Option, List, Text}
use spectro.Api.Members.{Database}

-- The pages to which a sign-in returns.
pub data ReturnPath : Type 0 where
  root invite : ReturnPath

pub record LoginAttempt : Type 0 where
  pub state_hash : Text
  pub code_verifier : Text
  pub nonce : Text
  pub expires_at : ℕ
  pub return_path : ReturnPath

pub record ExternalIdentity : Type 0 where
  pub issuer : Text
  pub subject : Text
  pub user_id : Text

pub record ConsoleSession : Type 0 where
  pub token_hash : Text
  pub user_id : Text
  pub expires_at : ℕ
  pub revoked_at : Option ℕ

pub record Project : Type 0 where
  pub id : Text
  pub organization_id : Text
  pub name : Text

pub record ProjectEnvironment : Type 0 where
  pub project_id : Text
  pub name : Text

-- A row of `project_write_keys`.
pub record WriteKey : Type 0 where
  pub id : Text
  pub project_id : Text
  pub environment : Text
  pub label : Text
  pub verifier : Text
  pub key_hint : Text
  pub allowed_origins : List Text
  pub created_by : Text
  pub created_at : ℕ
  pub revoked_at : Option ℕ

pub data WorkspaceAction : Type 0 where
  organization_created project_created api_key_created api_key_revoked : WorkspaceAction

-- A row that the stores of keys and workspaces write to `workspace_audit_log`.
pub record WorkspaceEntry : Type 0 where
  pub organization_id : Text
  pub actor_id : Text
  pub action : WorkspaceAction
  pub resource_id : Text

-- `members` holds the tables of users, organisations, memberships and invitations.
pub record Tables : Type 0 where
  pub members : Database
  pub login_attempts : List LoginAttempt
  pub identities : List ExternalIdentity
  pub sessions : List ConsoleSession
  pub projects : List Project
  pub environments : List ProjectEnvironment
  pub write_keys : List WriteKey
  pub workspace_log : List WorkspaceEntry
