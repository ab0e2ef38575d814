-- ===== src/Testing/RoundTrip.antt =====
-- `coerce_value` of types.py reads back what `_encode_cell` of testing.py writes.
pub mod Epoch
pub mod Zones
pub mod Values
pub mod Table
