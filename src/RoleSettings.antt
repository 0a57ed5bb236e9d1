-- ===== src/RoleSettings.antt =====
-- Settings of a role, for every database and in one of them,
-- internal/controller/role_settings.go. What PostgreSQL says of parameters and databases, and the
-- statements that set and reset, are parameters: an answer may be any function of what ran before.
pub mod Step
pub mod Covers
pub mod Success
use pgop.Prelude.{
  ℕ, Bool, true, false, not, ◌+◌, ◌&&◌, ◌||◌, List, [], ◌∷◌, ◌++◌, ◌==◌, ltb, is_empty, contains,
  if◌then◌else◌, Option, none, some, Result, ok, err, ◌>>=◌,
}
use pgop.Text.{Text, text_eq}
use pgop.Text.Strings.{byte_length}
use pgop.Text.Sort.{sort, compact}
use pgop.Grants.Engine.{CallError}
use pgop.Grants.Sets.{subtract}
use pgop.Policy.Roles.{Policy}
use pgop.Roles.{RoleError, reserved_role_name}
use pgop.Settings.{
  Settings, SettingsError, Refusal, Contexts, Log, SettingOps, Applied, sorted_keys,
  normalize_settings, apply_settings,
}

abbrev pub max_identifier_bytes : ℕ
max_identifier_bytes = 63

-- A map with the names of databases as keys. The latest entry of a key stands first.
abbrev pub ByDatabase {ℓ} : Type ℓ → Type ℓ
ByDatabase A = List (Text × A)

module _ {ℓ} {A : Type ℓ} where
  abbrev pub databases_of : ByDatabase A → List Text
  databases_of [] = []
  databases_of ((db, a) ∷ m) = db ∷ databases_of m

  unfoldable pub entry_at : ByDatabase A → Text → Option A
  entry_at [] db = none
  entry_at ((d, a) ∷ m) db = if d == db then some a else entry_at m db

-- An entry of a map of lists; a missing one is nil.
abbrev pub or_nil {ℓ} : {A : Type ℓ} → Option (List A) → List A
or_nil none = []
or_nil (some xs) = xs

pub data RoleSettingsError : Type 0 where
  reserved : RoleError → RoleSettingsError
  of_settings : SettingsError → RoleSettingsError
  of_database_settings : Text → SettingsError → RoleSettingsError
  database_empty : RoleSettingsError
  database_listed_twice : Text → RoleSettingsError
  names_too_long : List (Text × ℕ) → RoleSettingsError
  call_failed : CallError → RoleSettingsError
  not_allowed : List (Option Text × Text × Refusal) → RoleSettingsError

-- What the loop over spec.databaseSettings has built: `out`, and `tooLong`.
pub record DesiredSettings : Type 0 where
  pub settings : ByDatabase Settings
  pub too_long : List (Text × ℕ)

abbrev pub within_database :
    Text → Result SettingsError Settings → Result RoleSettingsError Settings
within_database db (ok s) = ok s
within_database db (err e) = err (of_database_settings db e)

abbrev pub role_wide : Result SettingsError Settings → Result RoleSettingsError Settings
role_wide (ok s) = ok s
role_wide (err e) = err (of_settings e)

-- The body of the loop.
unfoldable pub desired_entry :
    DesiredSettings → Text → Settings → Result RoleSettingsError DesiredSettings
unfolding byte_length
desired_entry d db settings =
    if is_empty db
    then err database_empty
    else if ltb max_identifier_bytes (byte_length db)
    then ok (record d { too_long = d.too_long ++ (db, byte_length db) ∷ [] })
    else if contains (databases_of d.settings) db
    then err (database_listed_twice db)
    else do
      s ← within_database db (normalize_settings settings)
      ok (record d { settings = (db, s) ∷ d.settings })

unfoldable pub desired_entries :
    DesiredSettings → ByDatabase Settings → Result RoleSettingsError DesiredSettings
unfolding desired_entry
desired_entries d [] = ok d
desired_entries d ((db, settings) ∷ entries) = do
  next ← desired_entry d db settings
  desired_entries next entries

-- `desiredRoleDatabaseSettings`; `invalid` is the error of the names that are too long.
unfoldable pub desired_role_database_settings :
    ByDatabase Settings → Result RoleSettingsError DesiredSettings
unfolding desired_entries
desired_role_database_settings = desired_entries (record { settings = []; too_long = [] })

-- What is read and written of a Role.
pub record Role : Type 0 where
  pub settings : Settings
  pub database_settings : ByDatabase Settings
  pub status_role_name : Text
  pub status_cluster_uid : Text
  pub managed_settings : List Text
  pub managed_database_settings : ByDatabase (List Text)

-- `clearStaleRoleSettings`
unfoldable pub clear_stale_role_settings : Role → Text → Text → Role
clear_stale_role_settings role pg_name cluster_uid =
    if role.status_role_name == pg_name && role.status_cluster_uid == cluster_uid
    then role
    else record role { managed_settings = []; managed_database_settings = [] }

-- What ran: the statements for every database, and those in each database, the latest first.
pub record Ran : Type 0 where
  pub everywhere : Log
  pub inside : ByDatabase Log

-- PostgreSQL, as the client of this file shows it. `roleSettingOps` is `everywhere_ops` for "" and
-- `inside_ops` for a database.
pub record RoleServer : Type 0 where
  pub contexts : Contexts
  pub everywhere_ops : SettingOps
  pub database_exists : Ran → Text → Result CallError Bool
  pub inside_ops : Ran → Text → SettingOps

-- What the loop over the databases does for one of them: its entry of `afterDB`, if any, whether it
-- is appended to `pending`, and what it adds to `errs` and `refused`.
pub record DatabaseOutcome : Type 0 where
  pub after : Option (List Text)
  pub pending : Bool
  pub error : Option CallError
  pub refused : List (Text × Refusal)
  pub log : Log

abbrev pub skipped : DatabaseOutcome
skipped = record { after = none; pending = false; error = none; refused = []; log = [] }

abbrev pub outcome_of : Applied → DatabaseOutcome
outcome_of a = record {
  after = some a.after;
  pending = false;
  error = a.error;
  refused = a.refused;
  log = a.log;
}

-- Once it is known whether the database exists.
unfoldable pub settle_database :
    Contexts → SettingOps → Policy → Settings → List Text → Result CallError Bool → DatabaseOutcome
settle_database contexts ops policy want managed (err e) = record skipped {
  after = some managed;
  error = some e;
}
settle_database contexts ops policy want managed (ok false) = record skipped {
  pending = not (is_empty want);
}
settle_database contexts ops policy want managed (ok true) =
    outcome_of (apply_settings contexts ops policy want managed [])

unfoldable pub reconcile_database :
    RoleServer → Policy → Ran → Settings → List Text → Text → DatabaseOutcome
unfolding settle_database
reconcile_database server policy ran want managed db =
    if is_empty want && is_empty managed
    then skipped
    else settle_database server.contexts (server.inside_ops ran db) policy want managed
        (server.database_exists ran db)

module _ (server : RoleServer) (policy : Policy) where
  -- The loop over the sorted databases.
  unfoldable pub reconcile_each :
      ByDatabase Settings → ByDatabase (List Text) → Ran → List Text → ByDatabase DatabaseOutcome
  unfolding reconcile_database entry_at
  reconcile_each desired managed ran [] = []
  reconcile_each desired managed ran (db ∷ dbs) =
      let out =
        reconcile_database server policy ran (or_nil (entry_at desired db))
          (or_nil (entry_at managed db)) db in
      (db, out)
      ∷ reconcile_each desired managed (record ran { inside = (db, out.log) ∷ ran.inside }) dbs

-- The databases are sorted and distinct, so what the loop leaves is in the order of its keys.
unfoldable pub ledger_after : ByDatabase DatabaseOutcome → ByDatabase (List Text)
ledger_after [] = []
ledger_after ((db, out) ∷ outs) =
    let rest = ledger_after outs in
    if is_empty (or_nil out.after) then rest else (db, or_nil out.after) ∷ rest

unfoldable pub pending_of : ByDatabase DatabaseOutcome → List Text
pending_of [] = []
pending_of ((db, out) ∷ outs) =
    let rest = pending_of outs in if out.pending then db ∷ rest else rest

abbrev pub error_list : Option CallError → List RoleSettingsError
error_list none = []
error_list (some e) = call_failed e ∷ []

unfoldable pub errors_of : ByDatabase DatabaseOutcome → List RoleSettingsError
errors_of [] = []
errors_of ((db, out) ∷ outs) = error_list out.error ++ errors_of outs

abbrev pub refused_in : Option Text → List (Text × Refusal) → List (Option Text × Text × Refusal)
refused_in db [] = []
refused_in db ((n, r) ∷ refused) = (db, n, r) ∷ refused_in db refused

unfoldable pub refused_of : ByDatabase DatabaseOutcome → List (Option Text × Text × Refusal)
refused_of [] = []
refused_of ((db, out) ∷ outs) = refused_in (some db) out.refused ++ refused_of outs

unfoldable pub logs_of : ByDatabase DatabaseOutcome → ByDatabase Log
logs_of [] = []
logs_of ((db, out) ∷ outs) = (db, out.log) ∷ logs_of outs

abbrev pub invalid_error : List (Text × ℕ) → List RoleSettingsError
invalid_error [] = []
invalid_error (n ∷ ns) = names_too_long (n ∷ ns) ∷ []

abbrev pub refused_error : List (Option Text × Text × Refusal) → List RoleSettingsError
refused_error [] = []
refused_error (r ∷ rs) = not_allowed (r ∷ rs) ∷ []

-- The statement for every database, unless nothing is wanted and nothing managed.
unfoldable pub apply_everywhere : RoleServer → Policy → Settings → List Text → Applied
apply_everywhere server policy desired managed =
    if is_empty desired && is_empty managed
    then record { after = managed; refused = []; error = none; log = [] }
    else apply_settings server.contexts server.everywhere_ops policy desired managed []

-- slices.Sort of the keys of both maps.
abbrev pub all_databases : ByDatabase Settings → ByDatabase (List Text) → List Text
all_databases desired managed =
    sorted_keys (databases_of desired ++ subtract (databases_of managed) (databases_of desired))

-- managedDB: of two entries of a database the later one counts.
unfoldable pub managed_map :
    ByDatabase (List Text) → ByDatabase (List Text) → ByDatabase (List Text)
managed_map out [] = out
managed_map out ((db, names) ∷ entries) = managed_map ((db, names) ∷ out) entries

-- The Role with its new ledgers, the databases waited for, the errors, and what ran.
pub record RoleSettingsRun : Type 0 where
  pub role : Role
  pub pending : List Text
  pub errors : List RoleSettingsError
  pub ran : Ran

abbrev pub nothing_ran : Ran
nothing_ran = record { everywhere = []; inside = [] }

unfoldable pub run_settings :
    RoleServer → Policy → Role → Settings → DesiredSettings → RoleSettingsRun
unfolding apply_everywhere reconcile_each ledger_after pending_of errors_of refused_of logs_of
    managed_map
run_settings server policy role desired d =
    let a = apply_everywhere server policy desired role.managed_settings in
    let managed = managed_map [] role.managed_database_settings in
    let outs =
      reconcile_each server policy d.settings managed (record { everywhere = a.log; inside = [] })
        (all_databases d.settings managed) in
    record {
      role = record role {
        managed_settings = a.after;
        managed_database_settings = ledger_after outs;
      };
      pending = pending_of outs;
      errors =
          invalid_error d.too_long
          ++ (error_list a.error
              ++ (errors_of outs ++ refused_error (refused_in none a.refused ++ refused_of outs)));
      ran = record { everywhere = a.log; inside = logs_of outs };
    }

abbrev pub run_or_error :
    RoleServer
    → Policy
    → Role
    → Result RoleSettingsError (Settings × DesiredSettings)
    → RoleSettingsRun
run_or_error server policy role (ok (desired, d)) = run_settings server policy role desired d
run_or_error server policy role (err e) = record {
  role = role;
  pending = [];
  errors = e ∷ [];
  ran = nothing_ran;
}

abbrev pub unless_reserved : Option RoleError → Result RoleSettingsError (Unit {0})
unless_reserved none = ok tt
unless_reserved (some e) = err (reserved e)

-- What is checked and computed before the first statement.
unfoldable pub desired_of : Role → Text → Result RoleSettingsError (Settings × DesiredSettings)
unfolding desired_role_database_settings reserved_role_name
desired_of role pg_name = do
  _ ← unless_reserved (reserved_role_name pg_name)
  desired ← role_wide (normalize_settings role.settings)
  d ← desired_role_database_settings role.database_settings
  ok (desired, d)

-- `reconcileRoleSettings`
unfoldable pub reconcile_role_settings : RoleServer → Policy → Role → Text → RoleSettingsRun
unfolding desired_of run_settings
reconcile_role_settings server policy role pg_name =
    run_or_error server policy role (desired_of role pg_name)
