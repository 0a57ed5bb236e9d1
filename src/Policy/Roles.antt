-- ===== src/Policy/Roles.antt =====
-- `RolePolicySpec` of api/v1alpha1/cluster_types.go with its methods, the roles that PostgreSQL
-- reports (internal/postgres/client.go) and the names that are never allowed
-- (internal/controller/role_policy.go).
use pgop.Prelude.{
  Bool, true, false, not, ◌&&◌, List, [], ◌∷◌, ◌≡◌, ◌↔◌, arith, Eq, ◌==◌, if◌then◌else◌, Option,
  none, some, contains,
}
use pgop.Text.{Text, text_eq, text}
use pgop.Text.Strings.{equal_fold}

pub data RoleAttribute : Type 0 where
  create_role replication bypass_rls : RoleAttribute

unfoldable pub attribute_beq : RoleAttribute → RoleAttribute → Bool
attribute_beq create_role create_role = true
attribute_beq replication replication = true
attribute_beq bypass_rls bypass_rls = true
attribute_beq _ _ = false

pub attribute_beq_iff : (a b : RoleAttribute) → (attribute_beq a b ≡ true) ↔ (a ≡ b)
unfolding attribute_beq
attribute_beq_iff create_role b = ground arith
attribute_beq_iff replication b = ground arith
attribute_beq_iff bypass_rls b = ground arith

instance abbrev pub attribute_eq : Eq RoleAttribute
attribute_eq = record { beq = attribute_beq; beq_iff = attribute_beq_iff }

pub record RolePolicySpec : Type 0 where
  pub allowed_attributes : List RoleAttribute
  pub allowed_predefined_roles : List Text
  pub allowed_existing_roles : List Text
  pub adoptable_roles : List Text
  pub adoptable_databases : List Text
  pub allowed_extensions : List Text
  pub allowed_setting_prefixes : List Text

-- A policy may be nil.
abbrev pub Policy : Type 0
Policy = Option RolePolicySpec

abbrev pub denied_setting_prefixes : List Text
denied_setting_prefixes =
    text "plperl"
    ∷ text "plperlu"
    ∷ text "plpython"
    ∷ text "plpythonu"
    ∷ text "plpython2u"
    ∷ text "plpython3"
    ∷ text "plpython3u"
    ∷ text "pltcl"
    ∷ text "pltclu"
    ∷ text "plv8"
    ∷ text "pljava"
    ∷ text "plpgsql"
    ∷ text "postgis"
    ∷ text "postgis_raster"
    ∷ text "auto_explain"
    ∷ text "pg_stat_statements"
    ∷ text "pg_stat_monitor"
    ∷ text "pgaudit"
    ∷ text "set_user"
    ∷ text "anon"
    ∷ text "sepgsql"
    ∷ text "pg_hint_plan"
    ∷ text "pg_partman_bgw"
    ∷ text "cron"
    ∷ text "pgsodium"
    ∷ text "pg_net"
    ∷ text "pg_prewarm"
    ∷ text "pgcrypto"
    ∷ text "pgtle"
    ∷ []

abbrev pub grantable_predefined_roles : List Text
grantable_predefined_roles =
    text "pg_checkpoint"
    ∷ text "pg_create_subscription"
    ∷ text "pg_maintain"
    ∷ text "pg_monitor"
    ∷ text "pg_read_all_data"
    ∷ text "pg_read_all_settings"
    ∷ text "pg_read_all_stats"
    ∷ text "pg_signal_autovacuum_worker"
    ∷ text "pg_signal_backend"
    ∷ text "pg_stat_scan_tables"
    ∷ text "pg_use_reserved_connections"
    ∷ text "pg_write_all_data"
    ∷ []

abbrev pub forbidden_predefined_roles : List Text
forbidden_predefined_roles =
    text "pg_execute_server_program"
    ∷ text "pg_read_server_files"
    ∷ text "pg_write_server_files"
    ∷ []

unfoldable pub allows_setting_prefix : Policy → Text → Bool
allows_setting_prefix none prefix = false
allows_setting_prefix (some p) prefix =
    contains p.allowed_setting_prefixes prefix && not (contains denied_setting_prefixes prefix)

unfoldable pub allows_attribute : Policy → RoleAttribute → Bool
allows_attribute none a = false
allows_attribute (some p) a = contains p.allowed_attributes a

unfoldable pub allows_predefined_role : Policy → Text → Bool
allows_predefined_role none name = false
allows_predefined_role (some p) name =
    contains p.allowed_predefined_roles name && contains grantable_predefined_roles name

unfoldable pub allows_existing_role : Policy → Text → Bool
allows_existing_role none name = false
allows_existing_role (some p) name = contains p.allowed_existing_roles name

unfoldable pub allows_adopting_role : Policy → Text → Bool
allows_adopting_role none name = false
allows_adopting_role (some p) name = contains p.adoptable_roles name

unfoldable pub allows_adopting_database : Policy → Text → Bool
allows_adopting_database none name = false
allows_adopting_database (some p) name = contains p.adoptable_databases name

unfoldable pub allows_extension : Policy → Text → Bool
allows_extension none name = false
allows_extension (some p) name = contains p.allowed_extensions name

-- postgres.ReachableRole; `via` is empty for the starting role.
pub record ReachableRole : Type 0 where
  pub name : Text
  pub via : Text
  pub comment : Text
  pub superuser : Bool
  pub create_role : Bool
  pub replication : Bool
  pub bypass_rls : Bool

-- The marker that each managed role must carry.
abbrev pub ManagedRoles : Type 0
ManagedRoles = List (Text × Text)

unfoldable pub marker_of : ManagedRoles → Text → Option Text
marker_of [] name = none
marker_of ((n, marker) ∷ m) name = if n == name then some marker else marker_of m name

abbrev carries : Text → Option Text → Bool
carries comment none = false
carries comment (some marker) = comment == marker

unfoldable pub manages : ManagedRoles → ReachableRole → Bool
unfolding marker_of
manages m r = carries r.comment (marker_of m r.name)

abbrev pub bootstrap_role_name : Text
bootstrap_role_name = text "postgres"

abbrev pub reserved_role_prefix : Text
reserved_role_prefix = text "pgop_"

abbrev pub predefined_prefix : Text
predefined_prefix = text "pg_"

-- postgres.IsPublic
unfoldable pub is_public : Text → Bool
is_public grantee = equal_fold grantee (text "PUBLIC")

unfoldable pub canonical_grantee : Text → Text
unfolding is_public
canonical_grantee grantee = if is_public grantee then text "PUBLIC" else grantee

-- Why a role is refused; `none` stands for the empty text of the source.
pub data Problem : Type 0 where
  reserved_bootstrap : Problem
  reserved_for_operator : Problem
  predefined_role : Problem
  reserved_name : Problem
  file_access : Problem
  predefined_not_allowed : Problem
  is_superuser : Problem
  has_attributes : List RoleAttribute → Problem
  not_managed : Problem
