-- ===== src/Batches.antt =====
-- snowflake_sql_api/batches.py: bounded INSERT planning and immutable progress.
pub mod Encode
pub mod Progress
pub mod Planner
pub mod Execution
pub mod Tests
