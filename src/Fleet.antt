-- ===== src/Fleet.antt =====
-- internal/fleet: peers, the registry, the manager, the HTTP handlers and the event stream.
pub mod Peer
pub mod Registry
pub mod Client
pub mod Handlers
pub mod Manager
pub mod Bootstrap
pub mod Sample
mod Tests
