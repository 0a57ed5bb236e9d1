-- ===== src/Tests.antt =====
-- The theorems on concrete inputs.
mod Grants
mod Public
mod Layout
mod DatabaseGrants
mod Policy
mod Sql
mod Settings
mod Memberships
mod Passwords
mod Parameters
mod Archive
mod Roles
mod Takeover
mod RoleSettings
mod Objects
mod Replication
