-- ===== src/Api.antt =====
-- The node's API server, vDexNode/api.
pub mod Bitcoin
pub mod Network
pub mod Handler
pub mod Server
pub mod Chat
pub mod Startup
pub mod ChatLoop
pub mod Locations
pub mod Wallet
