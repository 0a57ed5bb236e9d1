-- ===== src/Tests/RoleSettings.antt =====
-- Settings of a role in two databases, of which one exists.
use pgop.Prelude.{
  true, false, [], ◌∷◌, ◌≡◌, ◌==◌, refl, arith, Option, none, some, ok, contains, if◌then◌else◌,
}
use pgop.Text.{Text, text_eq, text}
use pgop.Grants.Engine.{other_error}
use pgop.Policy.Roles.{Policy}
use pgop.Settings.{context_user, SettingOps, Settings, Refusal, setting_allowed, value_of}
use pgop.Settings.Ledger.{value_in}
use pgop.Settings.Success.{permitted}
use pgop.RoleSettings.{
  ByDatabase, entry_at, managed_map, DesiredSettings, or_nil, Role, Ran, RoleServer, nothing_ran,
  desired_of, reconcile_role_settings,
}
use pgop.RoleSettings.Covers.{DropRemoves, LedgersCover, ledger_of, reconcile_role_settings-Covers}
use pgop.RoleSettings.Success.{reconcile_role_settings-Success}

abbrev app : Text
app = text "app"

abbrev work_mem : Text
work_mem = text "work_mem"

abbrev old_name : Text
old_name = text "lock_timeout"

abbrev no_policy : Policy
no_policy = none

-- The role has an old setting in the one database that exists.
abbrev inside : Text → Text → Option Text
inside db n = if db == app then (if old_name == n then some (text "5s") else none) else none

abbrev everywhere : Text → Option Text
everywhere n = none

abbrev willing : SettingOps
willing = record { set = λ log n v. none; reset = λ log n. none }

abbrev server : RoleServer
server = record {
  contexts = λ name. ok (some context_user);
  everywhere_ops = willing;
  database_exists = λ ran db. ok (db == app);
  inside_ops = λ ran db. willing;
}

-- Every statement for all databases fails.
abbrev failing_server : RoleServer
failing_server = record server {
  everywhere_ops = record {
    set = λ log n v. some (other_error 1);
    reset = λ log n. some (other_error 1);
  };
}

abbrev role : Role
role = record {
  settings = (work_mem, text "64MB") ∷ [];
  database_settings =
      (app, (work_mem, text "32MB") ∷ []) ∷ (text "later", (work_mem, text "1MB") ∷ []) ∷ [];
  status_role_name = text "reader";
  status_cluster_uid = text "u1";
  managed_settings = [];
  managed_database_settings = (app, old_name ∷ []) ∷ [];
}

abbrev reader : Text
reader = text "reader"

server-DropRemoves : DropRemoves server inside
server-DropRemoves ran db n h = ground (arith, h)

failing_server-DropRemoves : DropRemoves failing_server inside
failing_server-DropRemoves ran db n h = ground (arith, h)

inside_covers :
    (db n v : Text)
    → value_in (inside db) (or_nil (entry_at nothing_ran.inside db)) n ≡ some v
    → contains (ledger_of role db) n ≡ true
unfolding entry_at managed_map contains value_in
inside_covers db n v h = ground (arith, h, text_eq.beq_iff app db, text_eq.beq_iff db app)

covered : LedgersCover inside server no_policy everywhere nothing_ran role
unfolding value_in
covered = (λ n v h. cc, λ db n v h. inside_covers db n v h)

succeeded : (reconcile_role_settings server no_policy role reader).errors ≡ []
unfolding reconcile_role_settings value_in entry_at contains value_of pgop.Settings.setting_allowed
    pgop.Sql.Privileges.denied_parameter pgop.Sql.Privileges.has_any_prefix
    pgop.Text.Strings.has_prefix pgop.Text.Strings.to_lower pgop.Text.Sort.sort
    pgop.Text.Sort.compact pgop.Settings.entries_at pgop.Text.text_beq pgop.Settings.apply_settings
    pgop.Grants.Sets.subtract pgop.Settings.normalize_settings
    pgop.Sql.Privileges.normalize_parameter_name pgop.RoleSettings.apply_everywhere
    pgop.Sql.Privileges.is_name_start pgop.Sql.Privileges.is_name_rune pgop.Settings.forget
succeeded = refl

waits_for_database :
    (reconcile_role_settings server no_policy role reader).pending ≡ text "later" ∷ []
unfolding reconcile_role_settings value_in entry_at contains value_of pgop.Settings.setting_allowed
    pgop.Sql.Privileges.denied_parameter pgop.Sql.Privileges.has_any_prefix
    pgop.Text.Strings.has_prefix pgop.Text.Strings.to_lower pgop.Text.Sort.sort
    pgop.Text.Sort.compact pgop.Settings.entries_at pgop.Text.text_beq pgop.Settings.apply_settings
    pgop.Grants.Sets.subtract pgop.Settings.normalize_settings
    pgop.Sql.Privileges.normalize_parameter_name pgop.RoleSettings.apply_everywhere
    pgop.Sql.Privileges.is_name_start pgop.Sql.Privileges.is_name_rune pgop.Settings.forget
waits_for_database = refl

keeps_going :
    (reconcile_role_settings failing_server no_policy role reader).role.managed_database_settings
    ≡ (app, work_mem ∷ []) ∷ []
unfolding reconcile_role_settings value_in entry_at contains value_of pgop.Settings.setting_allowed
    pgop.Sql.Privileges.denied_parameter pgop.Sql.Privileges.has_any_prefix
    pgop.Text.Strings.has_prefix pgop.Text.Strings.to_lower pgop.Text.Sort.sort
    pgop.Text.Sort.compact pgop.Settings.entries_at pgop.Text.text_beq pgop.Settings.apply_settings
    pgop.Grants.Sets.subtract pgop.Settings.normalize_settings
    pgop.Sql.Privileges.normalize_parameter_name pgop.RoleSettings.apply_everywhere
    pgop.Sql.Privileges.is_name_start pgop.Sql.Privileges.is_name_rune pgop.Settings.forget
keeps_going = refl

reconcile_role_settings-Covers_example :
    LedgersCover inside failing_server no_policy everywhere
      (reconcile_role_settings failing_server no_policy role reader).ran
      (reconcile_role_settings failing_server no_policy role reader).role
reconcile_role_settings-Covers_example =
    reconcile_role_settings-Covers inside failing_server no_policy everywhere role reader
      failing_server-DropRemoves covered

user_setting : setting_allowed server.contexts no_policy work_mem ≡ ok none
unfolding reconcile_role_settings value_in entry_at contains value_of pgop.Settings.setting_allowed
    pgop.Sql.Privileges.denied_parameter pgop.Sql.Privileges.has_any_prefix
    pgop.Text.Strings.has_prefix pgop.Text.Strings.to_lower pgop.Text.Sort.sort
    pgop.Text.Sort.compact pgop.Settings.entries_at pgop.Text.text_beq pgop.Settings.apply_settings
    pgop.Grants.Sets.subtract pgop.Settings.normalize_settings
    pgop.Sql.Privileges.normalize_parameter_name pgop.RoleSettings.apply_everywhere
    pgop.Sql.Privileges.is_name_start pgop.Sql.Privileges.is_name_rune pgop.Settings.forget
user_setting = refl

app_is_ready : contains (reconcile_role_settings server no_policy role reader).pending app ≡ false
unfolding reconcile_role_settings value_in entry_at contains value_of pgop.Settings.setting_allowed
    pgop.Sql.Privileges.denied_parameter pgop.Sql.Privileges.has_any_prefix
    pgop.Text.Strings.has_prefix pgop.Text.Strings.to_lower pgop.Text.Sort.sort
    pgop.Text.Sort.compact pgop.Settings.entries_at pgop.Text.text_beq pgop.Settings.apply_settings
    pgop.Grants.Sets.subtract pgop.Settings.normalize_settings
    pgop.Sql.Privileges.normalize_parameter_name pgop.RoleSettings.apply_everywhere
    pgop.Sql.Privileges.is_name_start pgop.Sql.Privileges.is_name_rune pgop.Settings.forget
app_is_ready = refl

reconcile_role_settings-Success_example :
    (desired : Settings) × (d : DesiredSettings) × (desired_of role reader ≡ ok (desired, d))
    × (value_in everywhere
          (reconcile_role_settings server no_policy role reader).ran.everywhere
          work_mem
        ≡ permitted none (value_of desired work_mem))
    × (value_in
          (inside app)
          (or_nil (entry_at (reconcile_role_settings server no_policy role reader).ran.inside app))
          work_mem
        ≡ permitted none (value_of (or_nil (entry_at d.settings app)) work_mem))
reconcile_role_settings-Success_example =
    reconcile_role_settings-Success inside server no_policy everywhere role reader
      server-DropRemoves covered succeeded work_mem none user_setting app app_is_ready
