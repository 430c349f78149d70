-- ===== src/Examples.antt =====
-- Small inputs for the theorems of the other modules.
pub mod Toy
mod Framing
mod Races
mod Loops
mod Managers
mod Networking
pub mod Matchmaking
pub mod Accounts
mod Storage
mod Leaderboard
mod Admission
mod Api
mod Player
mod Config
