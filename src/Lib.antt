-- ===== src/Lib.antt =====
-- pgop: a Kubernetes operator for PostgreSQL. The operator runs every statement as a superuser, on
-- behalf of people who may write Roles and Databases and must not become superusers through it. The
-- development models the parts that decide what may be done and that keep account of what was done.
--
-- Prelude, Text: what the parts share. A Go string is a list of code points; of the standard library,
--   strings, slices, strconv and unicode are modelled as far as the program uses them. Text/Strings
--   says where a rune outside ASCII is not followed.
-- Grants: internal/controller/privilege_grants.go. `applyPrivilegeGrants` is
--   Grants.Engine.Apply.apply_privilege_grants, `revokeRemoved` is
--   Grants.Engine.Revoke.revoke_removed. PostgreSQL and the status write are calls in a log; their
--   answers are an arbitrary function of the calls before. Maps are lists of entries. Grants.Database
--   is `desiredDatabaseGrants` of internal/controller/database_grants.go and the conversions of
--   internal/controller/grant_ledgers.go. Grants.Database.Reconcile is `reconcileDatabaseGrants`
--   on the policy and the engine, Grants.Schemas `reconcileSchemaGrants`, and Grants.Public
--   `reconcilePublicPrivileges` of the same file.
--   Grants.Parameters is internal/controller/role_parameter_grants.go.
-- Policy: internal/controller/role_policy.go and grantee_policy.go, with the methods of
--   api/v1alpha1/cluster_types.go and role_types.go. Digests and the lookup of roles are parameters.
-- Settings: internal/controller/settings.go. `applySettings` is Settings.apply_settings.
-- Memberships: internal/controller/role_memberships.go. `reconcileMemberships` is
--   Memberships.Reconcile.reconcile_memberships. The policy's answers come from Policy.
-- Passwords: internal/controller/role_password.go, with the check of hashes in
--   internal/postgres/scram.go. `resolvePassword` is Passwords.Resolve.resolve_password. The cache, the
--   API server, the fingerprint and the random source are parameters; times are in nanoseconds.
-- Parameters: internal/controller/pgconfig.go. `reconcileParameters` is
--   Parameters.Reconcile.reconcile_parameters, `assessParameters` is
--   Parameters.Assess.assess_parameters. The servers and the hash of the file are parameters.
-- Roles: internal/controller/role_controller.go: names and the precedence of Roles; Roles.Takeover,
--   `roleOwnership` with the marker key of internal/controller/marker_key.go; Roles.Drop,
--   `dropPostgresRole`; and Roles.Reassign, internal/controller/role_reassign.go. What runs before
--   DROP ROLE is a log of acts, whose answers are an arbitrary function of the acts before; the
--   revocation of recorded object access and that of parameter grants are one act each there.
-- RoleSettings: internal/controller/role_settings.go. `reconcileRoleSettings` is
--   RoleSettings.reconcile_role_settings, which runs Settings.apply_settings for each target.
-- Objects: the planner of internal/controller/database_object_grants.go. Objects.Entries normalizes
--   the spec, Objects.Groups lists the objects, Objects.Owners judges them, and `plan` is
--   Objects.Planner.plan_objects, whose desired grants are what the engine of Grants is given.
-- Replication: the slots and volumes of standbys in internal/controller/replication.go.
-- Layout: internal/controller/pgpaths.go, the data directory by the major version of the image. A
--   major version in the spec is a natural number there.
-- Archive: internal/controller/archive_health.go. `reconcileArchiveHealth` is
--   Archive.reconcile_archive_health. time.Parse and the answers of the servers are parameters.
-- Sql: quoting in internal/postgres/client.go and dsn.go and internal/controller/pgconfig.go;
--   privilege words, parameter names, GRANT statements, identifier lists and SET clauses of
--   internal/postgres/privileges.go.
--
-- The controllers call the policy first (Policy.Grantee.filter gives the desired grants that
-- Grants.Engine.Apply gets), and the engine calls the client, which builds its text with Sql.
--
-- Recursion is structural, but for the loop of Sql.Lists.split_elements, which runs on fuel: each
-- round but the last uses up a comma, so the length of the text is enough. Texts of messages and
-- contexts of requests are left out; errors are values of data types. Not modelled: the catalog
-- queries, which run in PostgreSQL; the controllers that build Kubernetes objects; backups, the
-- rest of replication, and certificates. Two simplifications: a statement that fails is taken to
-- change nothing on the server, and instants keep the precision they have in memory, while the API
-- server keeps seconds.
pub mod Prelude
pub mod Text
pub mod Grants
pub mod Policy
pub mod Sql
pub mod Settings
pub mod Layout
pub mod Memberships
pub mod Passwords
pub mod Parameters
pub mod Archive
pub mod Roles
pub mod RoleSettings
pub mod Objects
pub mod Replication
pub mod Tests
