-- ===== src/Testing.antt =====
-- snowflake_sql_api/testing.py: the in-process stand-in for the SQL API.
pub mod Wire
pub mod RoundTrip
pub mod Bodies
pub mod Registry
pub mod Split
pub mod State
pub mod Paths
pub mod Server
pub mod Tests
