-- ===== src/RoleSettings/Covers.antt =====
-- What the role has in a database and the ledgers of the status agree, whatever PostgreSQL answers.
use pgop.Prelude.{
  Bool, true, false, ◌&&◌, ◌||◌, List, [], ◌∷◌, ◌++◌, ◌≡◌, refl, sym, ap, ◌∙◌, arith, contains,
  is_empty, Option, none, Result, ok, err, Bool-cases, inl, inr, contains-append,
}
use pgop.Text.{Text, text_eq}
use pgop.Text.Sort.{sort, contains-sort, contains-compact, compact-sort-IsStrict}
use pgop.Grants.Engine.{CallError}
use pgop.Grants.Sets.{subtract, contains-subtract}
use pgop.Policy.Roles.{Policy}
use pgop.Settings.{Settings, SettingOps}
use pgop.Settings.Ledger.{value_in, Covers, apply_settings-Covers}
use pgop.RoleSettings.{
  ByDatabase, databases_of, entry_at, or_nil, Role, Ran, RoleServer, DesiredSettings,
  RoleSettingsError, settle_database, reconcile_database, reconcile_each, ledger_after, managed_map,
  all_databases, apply_everywhere, run_settings, desired_of, run_or_error, nothing_ran,
  reconcile_role_settings,
}
use mathlib.Core.Path.{subst}
use pgop.RoleSettings.Step.{
  AreDistinct, AreDistinct-strict, entry_at-absent, after_at, log_at, ledger_after-AreDistinct,
  entry_at-ledger_after, entry_at-logs_of, managed_map_lem, databases_of-reconcile_each,
  entry_at-reconcile_each,
}

-- The names that the status lists for a database.
abbrev pub ledger_of : Role → Text → List Text
ledger_of role db = or_nil (entry_at (managed_map [] role.managed_database_settings) db)

-- The settings of the role in a database are listed, with what ran counted.
abbrev pub InsideCovers : (Text → Text → Option Text) → Ran → Role → Type 0
InsideCovers prior ran role =
    (db : Text) → Covers (prior db) (or_nil (entry_at ran.inside db)) (ledger_of role db)

-- DROP DATABASE has removed the settings of roles in it.
abbrev pub DropRemoves : RoleServer → (Text → Text → Option Text) → Type 0
DropRemoves server prior =
    (ran : Ran) (db n : Text) → server.database_exists ran db ≡ ok false → prior db n ≡ none

pub contains-all_databases :
    (desired : ByDatabase Settings) (managed : ByDatabase (List Text)) (db : Text)
    → contains (all_databases desired managed) db
      ≡ (contains (databases_of desired) db || contains (databases_of managed) db)
contains-all_databases desired managed db =
    let a = databases_of desired in
    let b = databases_of managed in
    let all = a ++ subtract b a in
    contains-compact (sort all) db
    ∙ contains-sort all db
    ∙ ground (arith, contains-append a (subtract b a) db, contains-subtract b a db)

module _ (prior : Text → Text → Option Text) (server : RoleServer) (policy : Policy) where
  settle_database-Covers :
      (ops : SettingOps) (want : Settings) (managed : List Text) (db : Text)
      (found : Result CallError Bool)
      → (found ≡ ok false → (n : Text) → prior db n ≡ none)
      → Covers (prior db) [] managed
      → Covers
          (prior db)
          (settle_database server.contexts ops policy want managed found).log
          (or_nil (settle_database server.contexts ops policy want managed found).after)
  unfolding settle_database value_in
  settle_database-Covers ops want managed db (err e) gone h = h
  settle_database-Covers ops want managed db (ok false) gone h = λ n v k. cc (gone refl n, k)
  settle_database-Covers ops want managed db (ok true) gone h =
      apply_settings-Covers (prior db) ops server.contexts policy want managed [] h

  reconcile_database-Covers :
      (ran : Ran) (want : Settings) (managed : List Text) (db : Text)
      → DropRemoves server prior
      → Covers (prior db) [] managed
      → Covers
          (prior db)
          (reconcile_database server policy ran want managed db).log
          (or_nil (reconcile_database server policy ran want managed db).after)
  unfolding reconcile_database
  reconcile_database-Covers ran want managed db gone h =
      elim (Bool-cases (is_empty want && is_empty managed)) [
        | inr e ↦ rw e (
            settle_database-Covers (server.inside_ops ran db) want managed db
              (server.database_exists ran db) (λ a n. gone ran db n a) h)
        | inl e ↦ rw e (of_nothing managed h e)
      ]
    where
      of_nothing :
          (ns : List Text)
          → Covers (prior db) [] ns
          → (is_empty want && is_empty ns) ≡ true
          → Covers (prior db) [] []
      of_nothing [] k q = k
      of_nothing (x ∷ xs) k q = absurd (ground (arith, q))

  -- What is listed and what ran for one database after the loop.
  each-Covers :
      (desired : ByDatabase Settings) (managed : ByDatabase (List Text)) (ran : Ran) (db : Text)
      → DropRemoves server prior
      → Covers (prior db) [] (or_nil (entry_at managed db))
      → Covers
          (prior db)
          (log_at (
            entry_at
              (reconcile_each server policy desired managed ran (all_databases desired managed))
              db))
          (after_at (
            entry_at
              (reconcile_each server policy desired managed ran (all_databases desired managed))
              db))
  each-Covers desired managed ran db gone h =
      elim (Bool-cases (contains (all_databases desired managed) db)) [
        | inl e ↦
            let (before, same) =
              entry_at-reconcile_each server policy desired managed ran
                (all_databases desired managed) db e in
            rw same (
              reconcile_database-Covers before (or_nil (entry_at desired db))
                (or_nil (entry_at managed db)) db gone h)
        | inr e ↦
            let dbs = all_databases desired managed in
            let none_left =
              entry_at-absent (reconcile_each server policy desired managed ran dbs) db (
                ap (λ ks. contains ks db)
                  (databases_of-reconcile_each server policy desired managed ran dbs)
                ∙ e) in
            let unlisted : entry_at managed db ≡ none =
              entry_at-absent managed db
                (ground (arith, e, contains-all_databases desired managed db)) in
            rw none_left (subst (λ m. Covers (prior db) [] (or_nil m)) unlisted h)
      ]

  run_settings-Covers :
      (role : Role) (desired : Settings) (d : DesiredSettings)
      → DropRemoves server prior
      → InsideCovers prior nothing_ran role
      → InsideCovers prior
          (run_settings server policy role desired d).ran
          (run_settings server policy role desired d).role
  unfolding run_settings entry_at
  run_settings-Covers role desired d gone h db =
      let managed = managed_map [] role.managed_database_settings in
      let dbs = all_databases d.settings managed in
      let ran : Ran = record {
        everywhere = (apply_everywhere server policy desired role.managed_settings).log;
        inside = [];
      } in
      let outs = reconcile_each server policy d.settings managed ran dbs in
      let apart =
        subst AreDistinct
          (sym (databases_of-reconcile_each server policy d.settings managed ran dbs))
          (AreDistinct-strict dbs (
            compact-sort-IsStrict (
              databases_of d.settings
              ++ subtract (databases_of managed) (databases_of d.settings)))) in
      let listed =
        ap or_nil (managed_map_lem (ledger_after outs) db (ledger_after-AreDistinct outs apart))
        ∙ entry_at-ledger_after outs db apart in
      rw (listed, entry_at-logs_of outs db) (each-Covers d.settings managed ran db gone (h db))

  apply_everywhere-Covers :
      (everywhere : Text → Option Text) (desired : Settings) (managed : List Text)
      → Covers everywhere [] managed
      → Covers everywhere
          (apply_everywhere server policy desired managed).log
          (apply_everywhere server policy desired managed).after
  unfolding apply_everywhere
  apply_everywhere-Covers everywhere desired managed h =
      elim (Bool-cases (is_empty desired && is_empty managed)) [
        | inl e ↦ rw e h
        | inr e ↦ rw e (
            apply_settings-Covers everywhere server.everywhere_ops server.contexts policy desired
              managed [] h)
      ]

  -- The ledgers list the settings of the role, for every database and inside each of them.
  abbrev pub LedgersCover : (Text → Option Text) → Ran → Role → Type 0
  LedgersCover everywhere ran role =
      Covers everywhere ran.everywhere role.managed_settings × InsideCovers prior ran role

  desired-Covers :
      (everywhere : Text → Option Text) (role : Role)
      (r : Result RoleSettingsError (Settings × DesiredSettings))
      → DropRemoves server prior
      → LedgersCover everywhere nothing_ran role
      → LedgersCover everywhere
          (run_or_error server policy role r).ran
          (run_or_error server policy role r).role
  unfolding run_settings
  desired-Covers everywhere role (ok (desired, d)) gone (w, h) = (
    apply_everywhere-Covers everywhere desired role.managed_settings w,
    run_settings-Covers role desired d gone h,
  )
  desired-Covers everywhere role (err e) gone h = h

  -- In every branch, errors included, every setting of the role, for every database or in one of
  -- them, is in the ledgers of the status, when this held before and a database that does not exist
  -- holds no setting: a setting that pgop made is not forgotten, whatever PostgreSQL answers.
  pub reconcile_role_settings-Covers :
      (everywhere : Text → Option Text) (role : Role) (pg_name : Text)
      → DropRemoves server prior
      → LedgersCover everywhere nothing_ran role
      → LedgersCover everywhere
          (reconcile_role_settings server policy role pg_name).ran
          (reconcile_role_settings server policy role pg_name).role
  unfolding reconcile_role_settings
  reconcile_role_settings-Covers everywhere role pg_name gone h =
      desired-Covers everywhere role (desired_of role pg_name) gone h
