-- ===== src/Grants.antt =====
-- The grant-tracking engine, internal/controller/privilege_grants.go. Target has the ledger's keys
-- and entries, Sets the set operations on privilege lists, Ledger the maps keyed by ledger key and
-- Engine the reconcile. Database, Schemas and Public are internal/controller/database_grants.go, Parameters is
-- internal/controller/role_parameter_grants.go.
pub mod Public
pub mod Sets
pub mod Target
pub mod Ledger
pub mod Engine
pub mod Database
pub mod Schemas
pub mod Parameters
