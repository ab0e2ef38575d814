-- ===== src/Client.antt =====
-- snowflake_sql_api/client.py: the polling of a statement and the DML helpers over the transport.
pub mod Affected
pub mod Poll
pub mod Batching
pub mod Insert
pub mod Payload
pub mod Chunks
pub mod Run
pub mod Results
pub mod Tests
