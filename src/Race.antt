-- ===== src/Race.antt =====
-- The authoritative race: internal/race.
pub mod Floats
pub mod Model
pub mod Physics
pub mod Roster
pub mod Checkpoints
pub mod Tick
pub mod Invariant
pub mod Laps
pub mod Circuits
pub mod Frame
pub mod Loop
pub mod Returns
pub mod Live
pub mod Finish
pub mod Frozen
pub mod Manager
