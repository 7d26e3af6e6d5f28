-- ===== src/Sql.antt =====
-- src/observer/sql: values and expressions of a query, and the rewriting of its predicates.
pub mod Value
pub mod Expr
pub mod Rewrite
pub mod Pushdown
mod Tests
