-- ===== src/Rmcp.antt =====
-- The RMCP scanner (rmcp/).
pub mod Pong
pub mod Targets
mod Tests
