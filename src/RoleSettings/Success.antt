-- ===== src/RoleSettings/Success.antt =====
-- A run without an error leaves the role with the settings of the spec, but in databases that it
-- waits for.
use pgop.Prelude.{
  Bool, true, false, ◌&&◌, List, [], ◌∷◌, ◌++◌, ◌≡◌, refl, sym, ap, ◌∙◌, arith, contains, is_empty,
  ◌==◌, Option, none, some, Result, ok, err, Bool-cases, Option-cases, inl, inr,
}
use mathlib.Core.Path.{subst}
use pgop.Text.{Text, text_eq}
use pgop.Grants.Engine.{CallError}
use pgop.Policy.Roles.{Policy}
use pgop.Settings.{Settings, value_of, Refusal, SettingOps, setting_allowed}
use pgop.Settings.Ledger.{value_in, Covers}
use pgop.Settings.Success.{permitted, apply_settings-Success}
use pgop.RoleSettings.{
  ByDatabase, databases_of, entry_at, or_nil, Role, Ran, RoleServer, DatabaseOutcome,
  DesiredSettings, RoleSettingsError, settle_database, reconcile_database, reconcile_each,
  managed_map, all_databases, apply_everywhere, run_settings, desired_of, run_or_error,
  reconcile_role_settings, nothing_ran, errors_of, error_list, pending_of, invalid_error,
  refused_error, refused_in, refused_of,
}
use pgop.RoleSettings.Step.{
  entry_at-absent, log_at, entry_at-logs_of, databases_of-reconcile_each, entry_at-reconcile_each,
}
use pgop.RoleSettings.Covers.{DropRemoves, LedgersCover, contains-all_databases}

append-eq-nil {ℓ} : {A : Type ℓ} (xs ys : List A) → (xs ++ ys) ≡ [] → (xs ≡ []) × (ys ≡ [])
append-eq-nil [] ys h = (refl, h)
append-eq-nil (x ∷ xs) ys h = cc

error_list-none : (e : Option CallError) → error_list e ≡ [] → e ≡ none
error_list-none none h = refl
error_list-none (some e) h = cc

-- Without errors none of the databases has one.
errors_of-none :
    (outs : ByDatabase DatabaseOutcome) (db : Text) (out : DatabaseOutcome)
    → errors_of outs ≡ []
    → entry_at outs db ≡ some out
    → out.error ≡ none
unfolding errors_of entry_at
errors_of-none [] db out h e = cc
errors_of-none ((d, x) ∷ outs) db out h e =
    let (a, b) = append-eq-nil (error_list x.error) (errors_of outs) h in
    elim (Bool-cases (d == db)) [
      | inl f ↦ ground (arith, e, f, error_list-none x.error a)
      | inr f ↦ errors_of-none outs db out b (ground (arith, e, f))
    ]

-- A database that is not listed as pending is not pending.
pending_of-absent :
    (outs : ByDatabase DatabaseOutcome) (db : Text) (out : DatabaseOutcome)
    → contains (pending_of outs) db ≡ false
    → entry_at outs db ≡ some out
    → out.pending ≡ false
unfolding pending_of entry_at contains
pending_of-absent [] db out h e = cc
pending_of-absent ((d, x) ∷ outs) db out h e = elim (Bool-cases (d == db)) [
  | inl f ↦ elim (Bool-cases x.pending) [
    | inl p ↦ ground (arith, e, f, p, h)
    | inr p ↦ ground (arith, e, f, p)
  ]
  | inr f ↦
      pending_of-absent outs db out (ground (arith, h, f, Bool-cases x.pending))
        (ground (arith, e, f))
]

permitted-none : (r : Option Refusal) → permitted r none ≡ none
permitted-none none = refl
permitted-none (some x) = refl

-- A target that is not listed has no setting, and is wanted to have none.
nothing_wanted :
    (prior : Text → Option Text) (want : Settings) (managed : List Text) (n : Text)
    (r : Option Refusal)
    → (is_empty want && is_empty managed) ≡ true
    → Covers prior [] managed
    → prior n ≡ permitted r (value_of want n)
unfolding value_of value_in contains
nothing_wanted prior [] [] n r e h = elim (Option-cases (prior n)) [
  | inl f ↦ f ∙ sym (permitted-none r)
  | inr (v, f) ↦ cc (h n v f)
]
nothing_wanted prior [] (m ∷ ms) n r e h = cc
nothing_wanted prior (w ∷ ws) managed n r e h = cc

module _ (prior : Text → Text → Option Text) (server : RoleServer) (policy : Policy) where
  settle_database-value :
      (ops : SettingOps) (want : Settings) (managed : List Text) (db : Text)
      (found : Result CallError Bool)
      → (found ≡ ok false → (n : Text) → prior db n ≡ none)
      → Covers (prior db) [] managed
      → (n : Text) (r : Option Refusal) → setting_allowed server.contexts policy n ≡ ok r
      → (settle_database server.contexts ops policy want managed found).error ≡ none
      → (settle_database server.contexts ops policy want managed found).pending ≡ false
      → value_in (prior db) (settle_database server.contexts ops policy want managed found).log n
        ≡ permitted r (value_of want n)
  unfolding settle_database value_in value_of
  settle_database-value ops want managed db (err e) gone h n r v k p = cc
  settle_database-value ops [] managed db (ok false) gone h n r v k p =
      gone refl n ∙ sym (permitted-none r)
  settle_database-value ops (w ∷ ws) managed db (ok false) gone h n r v k p = cc
  settle_database-value ops want managed db (ok true) gone h n r v k p =
      (apply_settings-Success (prior db) ops server.contexts policy want managed [] h k n r v).0

  reconcile_database-value :
      (ran : Ran) (want : Settings) (managed : List Text) (db : Text)
      → DropRemoves server prior
      → Covers (prior db) [] managed
      → (n : Text) (r : Option Refusal) → setting_allowed server.contexts policy n ≡ ok r
      → (reconcile_database server policy ran want managed db).error ≡ none
      → (reconcile_database server policy ran want managed db).pending ≡ false
      → value_in (prior db) (reconcile_database server policy ran want managed db).log n
        ≡ permitted r (value_of want n)
  unfolding reconcile_database value_in
  reconcile_database-value ran want managed db gone h n r v k p =
      elim (Bool-cases (is_empty want && is_empty managed)) [
        | inl e ↦ rw e (nothing_wanted (prior db) want managed n r e h)
        | inr e ↦ rw e (
            settle_database-value (server.inside_ops ran db) want managed db
              (server.database_exists ran db) (λ a m. gone ran db m a) h n r v (rw e at k)
              (rw e at p))
      ]

  each-value :
      (desired : ByDatabase Settings) (managed : ByDatabase (List Text)) (ran : Ran) (db : Text)
      (outs : ByDatabase DatabaseOutcome)
      → outs ≡ reconcile_each server policy desired managed ran (all_databases desired managed)
      → DropRemoves server prior
      → Covers (prior db) [] (or_nil (entry_at managed db))
      → errors_of outs ≡ []
      → contains (pending_of outs) db ≡ false
      → (n : Text) (r : Option Refusal) → setting_allowed server.contexts policy n ≡ ok r
      → value_in (prior db) (log_at (entry_at outs db)) n
        ≡ permitted r (value_of (or_nil (entry_at desired db)) n)
  unfolding value_in
  each-value desired managed ran db outs same gone h clean waits n r v =
      let dbs = all_databases desired managed in
      elim (Bool-cases (contains dbs db)) [
        | inl e ↦
            let (before, found) =
              entry_at-reconcile_each server policy desired managed ran dbs db e in
            let want = or_nil (entry_at desired db) in
            let listed = or_nil (entry_at managed db) in
            let here = ap (λ m. entry_at m db) same ∙ found in
            let out = reconcile_database server policy before want listed db in
            rw here (
              reconcile_database-value before want listed db gone h n r v
                (errors_of-none outs db out clean here) (pending_of-absent outs db out waits here))
        | inr e ↦
            let names = databases_of-reconcile_each server policy desired managed ran dbs in
            let gone_out : entry_at outs db ≡ none =
              entry_at-absent outs db (
                ap (λ m. contains (databases_of m) db) same
                ∙ ap (λ ks. contains ks db) names
                ∙ e) in
            let parts = contains-all_databases desired managed db in
            let unwanted : entry_at desired db ≡ none =
              entry_at-absent desired db (ground (arith, e, parts)) in
            let unlisted : entry_at managed db ≡ none =
              entry_at-absent managed db (ground (arith, e, parts)) in
            rw (gone_out, unwanted)
              (nothing_wanted (prior db) [] [] n r refl
                (subst (λ m. Covers (prior db) [] (or_nil m)) unlisted h))
      ]

  apply_everywhere-value :
      (everywhere : Text → Option Text) (desired : Settings) (managed : List Text)
      → Covers everywhere [] managed
      → (apply_everywhere server policy desired managed).error ≡ none
      → (n : Text) (r : Option Refusal) → setting_allowed server.contexts policy n ≡ ok r
      → value_in everywhere (apply_everywhere server policy desired managed).log n
        ≡ permitted r (value_of desired n)
  unfolding apply_everywhere value_in
  apply_everywhere-value everywhere desired managed h k n r v =
      elim (Bool-cases (is_empty desired && is_empty managed)) [
        | inl e ↦ rw e (nothing_wanted everywhere desired managed n r e h)
        | inr e ↦
            rw e
              (apply_settings-Success everywhere server.everywhere_ops server.contexts policy
                desired managed [] h (rw e at k) n r v).0
      ]

  run_settings-Success :
      (everywhere : Text → Option Text) (role : Role) (desired : Settings) (d : DesiredSettings)
      → DropRemoves server prior
      → LedgersCover prior server policy everywhere nothing_ran role
      → (run_settings server policy role desired d).errors ≡ []
      → (n : Text) (r : Option Refusal) → setting_allowed server.contexts policy n ≡ ok r
      → (db : Text) → contains (run_settings server policy role desired d).pending db ≡ false
      → (value_in everywhere (run_settings server policy role desired d).ran.everywhere n
          ≡ permitted r (value_of desired n))
        × (value_in
              (prior db)
              (or_nil (entry_at (run_settings server policy role desired d).ran.inside db))
              n
            ≡ permitted r (value_of (or_nil (entry_at d.settings db)) n))
  unfolding run_settings entry_at
  run_settings-Success everywhere role desired d gone (w, h) clean n r v db waits =
      let a = apply_everywhere server policy desired role.managed_settings in
      let managed = managed_map [] role.managed_database_settings in
      let ran : Ran = record { everywhere = a.log; inside = [] } in
      let outs =
        reconcile_each server policy d.settings managed ran (all_databases d.settings managed) in
      let refused = refused_error (refused_in none a.refused ++ refused_of outs) in
      let (_, known) =
        append-eq-nil (invalid_error d.too_long) (error_list a.error ++ (errors_of outs ++ refused))
          clean in
      let (first, others) = append-eq-nil (error_list a.error) (errors_of outs ++ refused) known in
      let (inside, _) = append-eq-nil (errors_of outs) refused others in
      (
        apply_everywhere-value everywhere desired role.managed_settings w
            (error_list-none a.error first) n r v,
        rw (entry_at-logs_of outs db)
            (each-value d.settings managed ran db outs refl gone (h db) inside waits n r v),
      )

  -- When a run ends without an error, the ledgers held every setting of the role before, and a
  -- database that does not exist holds none, then the spec is accepted, and for every name with a
  -- verdict the role has the desired value if the verdict permits it and no value otherwise: for
  -- every database, and in each database that the run does not report as pending.
  pub reconcile_role_settings-Success :
      (everywhere : Text → Option Text) (role : Role) (pg_name : Text)
      → DropRemoves server prior
      → LedgersCover prior server policy everywhere nothing_ran role
      → (reconcile_role_settings server policy role pg_name).errors ≡ []
      → (n : Text) (r : Option Refusal) → setting_allowed server.contexts policy n ≡ ok r
      → (db : Text)
      → contains (reconcile_role_settings server policy role pg_name).pending db ≡ false
      → (desired : Settings) × (d : DesiredSettings) × (desired_of role pg_name ≡ ok (desired, d))
        × (value_in everywhere (reconcile_role_settings server policy role pg_name).ran.everywhere n
            ≡ permitted r (value_of desired n))
        × (value_in
              (prior db)
              (or_nil (entry_at (reconcile_role_settings server policy role pg_name).ran.inside db))
              n
            ≡ permitted r (value_of (or_nil (entry_at d.settings db)) n))
  unfolding reconcile_role_settings
  reconcile_role_settings-Success everywhere role pg_name gone h clean n r v db =
      of_desired (desired_of role pg_name) clean
    where
      of_desired :
          (x : Result RoleSettingsError (Settings × DesiredSettings))
          → (run_or_error server policy role x).errors ≡ []
          → contains (run_or_error server policy role x).pending db ≡ false
          → (desired : Settings) × (d : DesiredSettings) × (x ≡ ok (desired, d))
            × (value_in everywhere (run_or_error server policy role x).ran.everywhere n
                ≡ permitted r (value_of desired n))
            × (value_in
                  (prior db)
                  (or_nil (entry_at (run_or_error server policy role x).ran.inside db))
                  n
                ≡ permitted r (value_of (or_nil (entry_at d.settings db)) n))
      of_desired (err e) k waits = cc
      of_desired (ok (desired, d)) k waits =
          let (a, b) = run_settings-Success everywhere role desired d gone h k n r v db waits in
          (desired, d, refl, a, b)
