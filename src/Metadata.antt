-- ===== src/Metadata.antt =====
-- SHOW statements and the metadata of columns: src/engine/metadata.
pub mod Statements
pub mod Parser
pub mod Regexes
pub mod Patterns
pub mod Infos
pub mod Names
pub mod Columns
pub mod Results
pub mod Execute
pub mod Examples
