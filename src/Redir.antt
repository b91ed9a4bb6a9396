-- ===== src/Redir.antt =====
-- The redirection protocol (redir/).
pub mod Codec
pub mod Serial
pub mod Link
pub mod Client
pub mod SolSession
pub mod Tests
