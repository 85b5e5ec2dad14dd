-- ===== src/Columnar.antt =====
-- storage-node/src/columnar: the encodings of a column.
pub mod Encoding
pub mod BitPacking
