-- ===== src/Encoding.antt =====
-- src/encoding: how a unit of data is split into shards.
pub mod Mock
pub mod ReedSolomon
