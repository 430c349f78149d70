-- ===== src/Matchmaking.antt =====
-- The matchmaking of the API and the game server: internal/matchmaking.
pub mod Token
pub mod Repo
pub mod Service
pub mod Handler
