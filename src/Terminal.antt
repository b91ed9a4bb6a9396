-- ===== src/Terminal.antt =====
-- The serial terminal of terminal/: a character grid (Screen) that a byte-driven parser drives.
pub mod Screen
pub mod Params
pub mod Sgr
pub mod Parser
pub mod Html
mod Tests
