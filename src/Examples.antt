-- ===== src/Examples.antt =====
-- The theorems of the development applied to concrete queues and clients, on shared sample data.
mod Samples
mod Queue
mod Client
mod Members
mod Services
mod Outbox
mod Browser
mod Issues
mod SignIn
mod Keys
mod Capture
mod Errors
mod Targets
mod Listing
