-- ===== src/Batch.antt =====
-- The batch runner of the application (app/src/batchrunner.cpp).
pub mod Runner
mod Tests
