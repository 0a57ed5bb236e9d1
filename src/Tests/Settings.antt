-- ===== src/Tests/Settings.antt =====
-- The settings ledger on a concrete input.
use pgop.Prelude.{
  true, false, [], ◌∷◌, ◌≡◌, ◌↔◌, ◌⊎◌, ◌==◌, refl, arith, Option, none, some, ok, contains,
  if◌then◌else◌,
}
use pgop.Text.{Text, text_eq, text}
use pgop.Text.Strings.{cut, to_lower, has_prefix}
use pgop.Text.Sort.{sort, compact}
use pgop.Grants.Engine.{other_error}
use pgop.Policy.Roles.{Policy}
use pgop.Sql.Privileges.{denied_parameter, has_any_prefix}
use pgop.Settings.{
  Settings, value_of, entries_at, Contexts, context_user, setting_allowed, SettingOps,
  apply_settings,
}
use pgop.Settings.Ledger.{value_in, Covers, apply_settings-Covers}
use pgop.Settings.Verdicts.{IsCustom, setting_allowed_iff}
use pgop.Settings.Success.{permitted, is_some, apply_settings-Success}

abbrev work_mem : Text
work_mem = text "work_mem"

abbrev old_name : Text
old_name = text "lock_timeout"

-- Every parameter is a user's.
abbrev contexts : Contexts
contexts name = ok (some context_user)

abbrev no_policy : Policy
no_policy = none

-- The target has an old setting.
abbrev prior : Text → Option Text
prior n = if old_name == n then some (text "5s") else none

abbrev willing : SettingOps
willing = record { set = λ log n v. none; reset = λ log n. none }

-- The reset of the old setting fails.
abbrev stubborn : SettingOps
stubborn = record { set = λ log n v. none; reset = λ log n. some (other_error 1) }

abbrev desired : Settings
desired = (work_mem, text "64MB") ∷ []

covered : Covers prior [] (old_name ∷ [])
unfolding value_in contains
covered n v h = ground (arith, h)

was_set :
    value_in prior
      (apply_settings contexts stubborn no_policy desired (old_name ∷ []) []).log
      work_mem
    ≡ some (text "64MB")
unfolding apply_settings value_in setting_allowed denied_parameter has_any_prefix has_prefix
    to_lower sort compact contains value_of entries_at pgop.Text.text_beq
was_set = refl

succeeded : (apply_settings contexts willing no_policy desired (old_name ∷ []) []).error ≡ none
unfolding apply_settings value_in setting_allowed denied_parameter has_any_prefix has_prefix
    to_lower sort compact contains value_of entries_at pgop.Text.text_beq
succeeded = refl

user_setting : setting_allowed contexts no_policy work_mem ≡ ok none
unfolding apply_settings value_in setting_allowed denied_parameter has_any_prefix has_prefix
    to_lower sort compact contains value_of entries_at pgop.Text.text_beq
user_setting = refl

apply_settings-Covers_example :
    contains (apply_settings contexts stubborn no_policy desired (old_name ∷ []) []).after work_mem
    ≡ true
apply_settings-Covers_example =
    apply_settings-Covers prior stubborn contexts no_policy desired (old_name ∷ []) [] covered
      work_mem (text "64MB") was_set

apply_settings-Success_example :
    (value_in prior
        (apply_settings contexts willing no_policy desired (old_name ∷ []) []).log
        work_mem
      ≡ permitted none (value_of desired work_mem))
    × (contains
          (apply_settings contexts willing no_policy desired (old_name ∷ []) []).after
          work_mem
        ≡ is_some (permitted none (value_of desired work_mem)))
apply_settings-Success_example =
    apply_settings-Success prior willing contexts no_policy desired (old_name ∷ []) [] covered
      succeeded work_mem none user_setting

setting_allowed_example : (setting_allowed contexts no_policy work_mem ≡ ok none) ↔ (
    (denied_parameter work_mem ≡ false)
    × ((contexts work_mem ≡ ok (some context_user))
        ⊎ ((contexts work_mem ≡ ok none) × IsCustom no_policy (cut work_mem b'.'))))
setting_allowed_example = setting_allowed_iff contexts no_policy work_mem
