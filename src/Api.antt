-- ===== src/Api.antt =====
-- web/src/lib/api.ts: requests to the server, and the session that they use and renew.
pub mod Json
pub mod Action
pub mod Environment
pub mod Client
pub mod Sessions
pub mod Refreshing
pub mod Renewal
pub mod Restoring
pub mod Resolving
pub mod Sample
mod Tests
