-- ===== src/Networking.antt =====
-- The UDP side of the game server: internal/networking.
pub mod Sessions
pub mod Dispatcher
pub mod Subscriptions
pub mod Server
