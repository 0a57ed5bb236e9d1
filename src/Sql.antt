-- ===== src/Sql.antt =====
-- The SQL text that pgop writes: quoting in internal/postgres/client.go and dsn.go and
-- internal/controller/pgconfig.go, statements in internal/postgres/privileges.go.
pub mod Quote
pub mod Privileges
pub mod Statements
pub mod Lists
