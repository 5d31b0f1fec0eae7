-- ===== src/Thrift/Codec.antt =====
-- `Reader` and `Writer`: src/thrift/codec.rs.
pub mod Reader
pub mod Skip
pub mod Writer
