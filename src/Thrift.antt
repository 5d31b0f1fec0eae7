-- ===== src/Thrift.antt =====
-- The Thrift endpoint: src/thrift.rs and src/thrift/.
pub mod Protocol
pub mod Result
pub mod Uuids
pub mod Codec
pub mod Requests
pub mod State
pub mod Responses
pub mod ResultSets
pub mod Service
pub mod Examples
