-- ===== src/Browser.antt =====
-- The browser SDK, packages/browser.
pub mod Outbox
pub mod Lifecycle
pub mod Network
pub mod Transport
pub mod Errors
pub mod Targets
