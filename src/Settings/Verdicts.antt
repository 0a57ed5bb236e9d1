-- ===== src/Settings/Verdicts.antt =====
-- Which settings pgop sets on a writer's behalf.
use pgop.Prelude.{
  true, false, ◌≡◌, ◌↔◌, ◌⊎◌, refl, arith, ◌==◌, nat_eq, contains, Option, none, some, Result, ok,
  err, inl, inr, ==-refl, eq_of_==,
}
use pgop.Text.{Text, text_eq}
use pgop.Text.Strings.{cut}
use pgop.Grants.Engine.{CallError}
use pgop.Policy.Roles.{Policy, denied_setting_prefixes, allows_setting_prefix}
use pgop.Sql.Privileges.{denied_parameter}
use pgop.Settings.{Contexts, context_user, custom_allowed, context_allowed, setting_allowed}

-- A parameter that the server does not know: without a dot it is left to the server to refuse, with
-- one its namespace must be listed in the policy and not be a denied one.
pub data IsCustom (policy : Policy) : Option (Text × Text) → Type 0 where
  plain : IsCustom policy none
  listed :
      (prefix rest : Text)
      → contains denied_setting_prefixes prefix ≡ false
      → allows_setting_prefix policy prefix ≡ true
      → IsCustom policy (some (prefix, rest))

custom_allowed_iff :
    (policy : Policy) (o : Option (Text × Text))
    → (custom_allowed policy o ≡ none) ↔ IsCustom policy o
unfolding custom_allowed
custom_allowed_iff policy none = ((λ h. plain), (λ c. refl))
custom_allowed_iff policy (some (prefix, rest)) =
    ((λ h. listed prefix rest (ground arith) (ground arith)), (λ c. back c))
  where
    back :
        IsCustom policy (some (prefix, rest)) → custom_allowed policy (some (prefix, rest)) ≡ none
    back (listed _ _ d a) = ground (arith, d, a)

-- A parameter may be set exactly when it is not on the denylist and the server either knows it with
-- context user, or does not know it and it has no namespace or a listed one that is not denied.
pub setting_allowed_iff :
    (contexts : Contexts) (policy : Policy) (name : Text)
    → (setting_allowed contexts policy name ≡ ok none) ↔ (
        (denied_parameter name ≡ false)
        × ((contexts name ≡ ok (some context_user))
            ⊎ ((contexts name ≡ ok none) × IsCustom policy (cut name b'.'))))
unfolding setting_allowed context_allowed
setting_allowed_iff contexts policy name = (there (contexts name) refl, (λ c. back c))
  where
    there :
        (answer : Result CallError (Option Text))
        → contexts name ≡ answer
        → setting_allowed contexts policy name ≡ ok none
        → (denied_parameter name ≡ false)
          × ((contexts name ≡ ok (some context_user))
              ⊎ ((contexts name ≡ ok none) × IsCustom policy (cut name b'.')))
    there (err e) f h = ground (arith, f, h)
    there (ok none) f h =
        let clear : denied_parameter name ≡ false = ground (arith, f, h) in
        let custom : custom_allowed policy (cut name b'.') ≡ none = ground (arith, f, h, clear) in
        (clear, inr (f, (custom_allowed_iff policy (cut name b'.')).0 custom))
    there (ok (some context)) f h =
        let clear : denied_parameter name ≡ false = ground (arith, f, h) in
        let user : (context == context_user) ≡ true = ground (arith, f, h, clear) in
        (clear, inl (ground (arith, f, eq_of_== context context_user user)))

    back :
        (denied_parameter name ≡ false)
          × ((contexts name ≡ ok (some context_user))
              ⊎ ((contexts name ≡ ok none) × IsCustom policy (cut name b'.')))
        → setting_allowed contexts policy name ≡ ok none
    back (clear, inl f) = ground (arith, clear, f, ==-refl context_user)
    back (clear, inr (f, c)) =
        ground (arith, clear, f, (custom_allowed_iff policy (cut name b'.')).1 c)
