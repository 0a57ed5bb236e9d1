-- ===== src/Settings.antt =====
-- Per-database and per-role defaults of configuration parameters, internal/controller/settings.go.
-- `ParameterContext` of the PostgreSQL client and the two statements that set and reset a parameter
-- are parameters. The statements made so far, with their outcome, are the state; the server's answer
-- to the next one may be any function of them.
pub mod Ledger
pub mod Values
pub mod Success
pub mod Verdicts
use pgop.Prelude.{
  ℕ, Bool, true, false, not, ◌&&◌, List, [], ◌∷◌, ◌++◌, ◌==◌, nat_eq, map, contains, if◌then◌else◌,
  Option, none, some, Result, ok, err, ◌>>=◌,
}
use pgop.Text.{Text, text_eq, text}
use pgop.Text.Strings.{cut}
use pgop.Text.Sort.{sort, compact}
use pgop.Grants.Engine.{CallError}
use pgop.Policy.Roles.{Policy, denied_setting_prefixes, allows_setting_prefix}
use pgop.Sql.Privileges.{SqlError, normalize_parameter_name, denied_parameter}

-- A map of parameters to values, as a list of entries.
abbrev pub Settings : Type 0
Settings = List (Text × Text)

abbrev pub names_of : Settings → List Text
names_of [] = []
names_of ((n, v) ∷ s) = n ∷ names_of s

unfoldable pub value_of : Settings → Text → Option Text
value_of [] n = none
value_of ((m, v) ∷ s) n = if m == n then some v else value_of s n

-- slices.Sorted(maps.Keys(m)), and `sortedKeys` of a set of names
abbrev pub sorted_keys : List Text → List Text
sorted_keys ns = compact (sort ns)

-- The entries of a map in the order of its sorted keys.
unfoldable pub entries_at : Settings → List Text → Settings
entries_at s [] = []
entries_at s (n ∷ ns) = elim (value_of s n) [
  | some v ↦ (n, v) ∷ entries_at s ns
  | none ↦ entries_at s ns
]

abbrev pub in_order : Settings → Settings
in_order s = entries_at s (sorted_keys (names_of s))

pub data SettingsError : Type 0 where
  bad_name : SqlError → SettingsError
  listed_twice : Text → SettingsError

abbrev pub name_or_error : Result SqlError Text → Result SettingsError Text
name_or_error (ok n) = ok n
name_or_error (err e) = err (bad_name e)

-- The loop of `normalizeSettings`, with `out`.
unfoldable pub normalize_each : Settings → Settings → Result SettingsError Settings
normalize_each out [] = ok out
normalize_each out ((k, v) ∷ s) = do
  name ← name_or_error (normalize_parameter_name k)
  if contains (names_of out) name
      then err (listed_twice name)
      else normalize_each ((name, v) ∷ out) s

unfoldable pub normalize_settings : Settings → Result SettingsError Settings
unfolding normalize_each
normalize_settings settings = normalize_each [] (in_order settings)

pub data Refusal : Type 0 where
  on_denylist : Refusal
  has_context : Text → Refusal
  denied_namespace : Text → Refusal
  namespace_not_listed : Text → Refusal

abbrev pub context_user : Text
context_user = text "user"

-- What PostgreSQL says of a parameter: its context, if it knows it.
abbrev pub Contexts : Type 0
Contexts = Text → Result CallError (Option Text)

unfoldable pub custom_allowed : Policy → Option (Text × Text) → Option Refusal
custom_allowed policy none = none
custom_allowed policy (some (prefix, rest)) =
    if contains denied_setting_prefixes prefix
    then some (denied_namespace prefix)
    else if not (allows_setting_prefix policy prefix)
    then some (namespace_not_listed prefix)
    else none

unfoldable pub context_allowed : Policy → Text → Option Text → Option Refusal
unfolding custom_allowed
context_allowed policy name (some context) =
    if not (context == context_user) then some (has_context context) else none
context_allowed policy name none = custom_allowed policy (cut name b'.')

unfoldable pub setting_allowed : Contexts → Policy → Text → Result CallError (Option Refusal)
unfolding context_allowed
setting_allowed contexts policy name =
    if denied_parameter name
    then ok (some on_denylist)
    else do context ← contexts name; ok (context_allowed policy name context)

-- The settings that may be set, and the refused ones.
abbrev pub SortedOut : Type 0
SortedOut = Settings × List (Text × Refusal)

abbrev pub judge : Text → Text → Option Refusal → SortedOut → SortedOut
judge n v none (allowed, refused) = ((n, v) ∷ allowed, refused)
judge n v (some r) (allowed, refused) = (allowed, (n, r) ∷ refused)

-- The first loop of `applySettings`.
unfoldable pub allowed_settings : Contexts → Policy → Settings → Result CallError SortedOut
unfolding setting_allowed
allowed_settings contexts policy [] = ok ([], [])
allowed_settings contexts policy ((n, v) ∷ s) = do
  reason ← setting_allowed contexts policy n
  rest ← allowed_settings contexts policy s
  ok (judge n v reason rest)

pub data Statement : Type 0 where
  set : Text → Text → Statement
  reset : Text → Statement
  failed : Statement

abbrev pub Log : Type 0
Log = List Statement

-- `settingOps`
pub record SettingOps : Type 0 where
  pub set : Log → Text → Text → Option CallError
  pub reset : Log → Text → Option CallError

-- What the loops over the statements leave: the names tracked, the error that stopped them, and the
-- statements made, the latest first.
pub record Progress : Type 0 where
  pub tracked : List Text
  pub error : Option CallError
  pub log : Log

-- delete(tracked, name)
unfoldable pub forget : List Text → Text → List Text
forget [] name = []
forget (n ∷ ns) name = let rest = forget ns name in if n == name then rest else n ∷ rest

abbrev stopped : List Text → CallError → Log → Progress
stopped tracked e log = record { tracked = tracked; error = some e; log = failed ∷ log }

module _ (ops : SettingOps) where
  unfoldable pub set_all : Settings → List Text → Log → Progress
  set_all [] tracked log = record { tracked = tracked; error = none; log = log }
  set_all ((n, v) ∷ s) tracked log = elim (ops.set log n v) [
    | some e ↦ stopped tracked e log
    | none ↦ set_all s (n ∷ tracked) (set n v ∷ log)
  ]

  -- The names of `managed` that are not allowed are reset.
  unfoldable pub reset_all : Settings → List Text → List Text → Log → Progress
  reset_all allowed [] tracked log = record { tracked = tracked; error = none; log = log }
  reset_all allowed (n ∷ ns) tracked log =
      if contains (names_of allowed) n
      then reset_all allowed ns tracked log
      else elim (ops.reset log n) [
        | some e ↦ stopped tracked e log
        | none ↦ reset_all allowed ns (forget tracked n) (reset n ∷ log)
      ]

  abbrev pub after_set : Settings → List Text → Progress → Option CallError → Progress
  after_set allowed managed p (some e) = p
  after_set allowed managed p none = reset_all allowed managed p.tracked p.log

  -- The loops over the allowed settings and over the managed names.
  unfoldable pub apply_allowed : Settings → List Text → Log → Progress
  unfolding set_all reset_all
  apply_allowed allowed managed log =
      let p = set_all (in_order allowed) managed log in after_set allowed managed p p.error

pub record Applied : Type 0 where
  pub after : List Text
  pub refused : List (Text × Refusal)
  pub error : Option CallError
  pub log : Log

abbrev pub applied_with : List (Text × Refusal) → Progress → Applied
applied_with refused p = record {
  after = sorted_keys p.tracked;
  refused = refused;
  error = p.error;
  log = p.log;
}

-- What follows the first loop.
unfoldable pub apply_judged :
    SettingOps → List Text → Log → Result CallError (Settings × List (Text × Refusal)) → Applied
unfolding apply_allowed
apply_judged ops managed log (err e) = record {
  after = managed;
  refused = [];
  error = some e;
  log = log;
}
apply_judged ops managed log (ok (allowed, refused)) =
    applied_with refused (apply_allowed ops allowed managed log)

unfoldable pub apply_settings :
    Contexts → SettingOps → Policy → Settings → List Text → Log → Applied
unfolding allowed_settings apply_judged
apply_settings contexts ops policy desired managed log =
    apply_judged ops managed log (allowed_settings contexts policy (in_order desired))
