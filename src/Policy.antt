-- ===== src/Policy.antt =====
-- The role policy: which roles pgop manages, grants to and grants membership in. Roles has the
-- types of api/v1alpha1/cluster_types.go, Ownership, Membership and Attributes the decisions of
-- internal/controller/role_policy.go, Grantee those of internal/controller/grantee_policy.go.
pub mod Roles
pub mod Ownership
pub mod Membership
pub mod Grantee
