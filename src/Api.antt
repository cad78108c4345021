-- ===== src/Api.antt =====
-- The management API, apps/api.
pub mod Roles
pub mod Members
pub mod Issues
pub mod Tables
pub mod Auth
pub mod Hosted
pub mod Keys
pub mod Workspaces
