-- ===== src/Runner.antt =====
-- internal/runner: the drivers that run tasks.
pub mod Logs
pub mod Hop
