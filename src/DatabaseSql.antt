-- ===== src/DatabaseSql.antt =====
-- pkg/rules/databasesql: the hooks of package database/sql.
pub mod Dsn
pub mod Calls
pub mod Hooks
pub mod Statement
pub mod SqlCache
pub mod Getter
