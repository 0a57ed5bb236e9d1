-- ===== src/RoleSettings/Step.antt =====
-- What the loop over the databases leaves for one of them.
use pgop.Prelude.{
  true, false, ◌⊎◌, List, [], ◌∷◌, ◌≡◌, refl, sym, ap, ◌∙◌, ◌==◌, arith, contains, is_empty,
  if◌then◌else◌, Option, none, some, Bool-cases, inl, inr, of_contains, eq_of_==,
}
use pgop.Text.{Text, text_eq}
use pgop.Text.Sort.{IsStrict}
use pgop.Text.Sort.Order.{text_lt, text_lt_irrefl}
use pgop.Policy.Roles.{Policy}
use pgop.Settings.{Settings, Log}
use pgop.RoleSettings.{
  ByDatabase, databases_of, entry_at, or_nil, Ran, RoleServer, DatabaseOutcome, reconcile_database,
  reconcile_each, ledger_after, logs_of, managed_map,
}

abbrev pub AreDistinct : List Text → Type 0
AreDistinct [] = Unit
AreDistinct (x ∷ xs) = (contains xs x ≡ false) × AreDistinct xs

pub AreDistinct-strict : (xs : List Text) → IsStrict xs → AreDistinct xs
AreDistinct-strict [] h = tt
AreDistinct-strict (x ∷ xs) (b, h) = (absent (Bool-cases (contains xs x)), AreDistinct-strict xs h)
  where
    absent : (contains xs x ≡ true) ⊎ (contains xs x ≡ false) → contains xs x ≡ false
    absent (inr e) = e
    absent (inl e) = cc (of_contains (λ y. text_lt x y ≡ true) xs x b e, text_lt_irrefl x)

pub entry_at-absent {ℓ} :
    {A : Type ℓ} (m : ByDatabase A) (db : Text)
    → contains (databases_of m) db ≡ false
    → entry_at m db ≡ none
unfolding entry_at contains
entry_at-absent [] db h = refl
entry_at-absent ((d, a) ∷ m) db h = ground (arith, h, entry_at-absent m db)

-- What a database without an outcome has: nothing listed, and nothing run.
abbrev pub after_at : Option DatabaseOutcome → List Text
after_at none = []
after_at (some out) = or_nil out.after

abbrev pub log_at : Option DatabaseOutcome → Log
log_at none = []
log_at (some out) = out.log

contains-ledger_after :
    (outs : ByDatabase DatabaseOutcome) (db : Text)
    → contains (databases_of outs) db ≡ false
    → contains (databases_of (ledger_after outs)) db ≡ false
unfolding ledger_after contains
contains-ledger_after [] db h = refl
contains-ledger_after ((d, out) ∷ outs) db h =
    ground (arith, h, contains-ledger_after outs db, Bool-cases (is_empty (or_nil out.after)))

pub ledger_after-AreDistinct :
    (outs : ByDatabase DatabaseOutcome)
    → AreDistinct (databases_of outs)
    → AreDistinct (databases_of (ledger_after outs))
unfolding ledger_after
ledger_after-AreDistinct [] h = tt
ledger_after-AreDistinct ((d, out) ∷ outs) (a, h) =
    let rest = ledger_after-AreDistinct outs h in
    elim (Bool-cases (is_empty (or_nil out.after))) [
      | inl e ↦ rw e rest
      | inr e ↦ rw e (contains-ledger_after outs d a, rest)
    ]

is_empty-nil {ℓ} : {A : Type ℓ} (xs : List A) → is_empty xs ≡ true → xs ≡ []
is_empty-nil [] h = refl
is_empty-nil (x ∷ xs) h = cc

pub entry_at-ledger_after :
    (outs : ByDatabase DatabaseOutcome) (db : Text)
    → AreDistinct (databases_of outs)
    → or_nil (entry_at (ledger_after outs) db) ≡ after_at (entry_at outs db)
unfolding ledger_after entry_at
entry_at-ledger_after [] db h = refl
entry_at-ledger_after ((d, out) ∷ outs) db (a, h) =
    elim (Bool-cases (is_empty (or_nil out.after))) [
      | inr e ↦ rw e (ground (arith, entry_at-ledger_after outs db h))
      | inl e ↦ elim (Bool-cases (d == db)) [
        | inr f ↦ rw (e, f) (entry_at-ledger_after outs db h)
        | inl f ↦
            let absent =
              contains-ledger_after outs db
                (ap (contains (databases_of outs)) (sym (eq_of_== d db f)) ∙ a) in
            ground (
              arith,
              e,
              f,
              entry_at-absent (ledger_after outs) db absent,
              is_empty-nil (or_nil out.after) e,
            )
      ]
    ]

pub entry_at-logs_of :
    (outs : ByDatabase DatabaseOutcome) (db : Text)
    → or_nil (entry_at (logs_of outs) db) ≡ log_at (entry_at outs db)
unfolding logs_of entry_at
entry_at-logs_of [] db = refl
entry_at-logs_of ((d, out) ∷ outs) db = ground (arith, entry_at-logs_of outs db)

managed_map-entry :
    (out m : ByDatabase (List Text)) (db : Text)
    → AreDistinct (databases_of m)
    → entry_at (managed_map out m) db
      ≡ (if contains (databases_of m) db then entry_at m db else entry_at out db)
unfolding managed_map entry_at contains
managed_map-entry out [] db h = refl
managed_map-entry out ((d, names) ∷ m) db (a, h) = elim (Bool-cases (d == db)) [
  | inr f ↦ ground (arith, f, managed_map-entry ((d, names) ∷ out) m db h)
  | inl f ↦
      let absent : contains (databases_of m) db ≡ false =
        ap (contains (databases_of m)) (sym (eq_of_== d db f)) ∙ a in
      ground (arith, f, absent, managed_map-entry ((d, names) ∷ out) m db h)
]

-- Written from distinct keys, the map has what is listed.
pub managed_map_lem :
    (m : ByDatabase (List Text)) (db : Text)
    → AreDistinct (databases_of m)
    → entry_at (managed_map [] m) db ≡ entry_at m db
unfolding entry_at
managed_map_lem m db h = elim (Bool-cases (contains (databases_of m) db)) [
  | inl e ↦ ground (arith, e, managed_map-entry [] m db h)
  | inr e ↦ ground (arith, e, managed_map-entry [] m db h, entry_at-absent m db e)
]

module _ (server : RoleServer) (policy : Policy) (desired : ByDatabase Settings)
    (managed : ByDatabase (List Text)) where
  -- What is done for a database, after `ran`.
  abbrev pub database_outcome : Ran → Text → DatabaseOutcome
  database_outcome ran db =
      reconcile_database server policy ran (or_nil (entry_at desired db))
        (or_nil (entry_at managed db)) db

  pub databases_of-reconcile_each :
      (ran : Ran) (dbs : List Text)
      → databases_of (reconcile_each server policy desired managed ran dbs) ≡ dbs
  unfolding reconcile_each
  databases_of-reconcile_each ran [] = refl
  databases_of-reconcile_each ran (db ∷ dbs) =
      let out = database_outcome ran db in
      ap (λ rest. db ∷ rest)
        (databases_of-reconcile_each (record ran { inside = (db, out.log) ∷ ran.inside }) dbs)

  pub entry_at-reconcile_each :
      (ran : Ran) (dbs : List Text) (db : Text)
      → contains dbs db ≡ true
      → (before : Ran) × (entry_at (reconcile_each server policy desired managed ran dbs) db
          ≡ some (database_outcome before db))
  unfolding reconcile_each entry_at contains
  entry_at-reconcile_each ran [] db h = cc
  entry_at-reconcile_each ran (d ∷ dbs) db h = elim (Bool-cases (d == db)) [
    | inl e ↦ (ran, rw e (ap (λ x. some (database_outcome ran x)) (eq_of_== d db e)))
    | inr e ↦
        let out = database_outcome ran d in
        rw e (
          entry_at-reconcile_each (record ran { inside = (d, out.log) ∷ ran.inside }) dbs db
            (ground (arith, h, e)))
  ]
