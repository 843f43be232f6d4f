-- ===== src/Dialect.antt =====
-- The comparisons of two generated documents, one for each dialect: soothfast-spec/src/openapi/diff.rs,
-- asyncapi/diff.rs, graphql/diff.rs and mcp.rs. Parameters are the text that serde_json gives of a value,
-- and Rust's `to_uppercase`.
pub mod Openapi
pub mod Asyncapi
pub mod Graphql
pub mod Mcp
pub mod Parts
pub mod Compatible
mod Tests
