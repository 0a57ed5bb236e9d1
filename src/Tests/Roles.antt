-- ===== src/Tests/Roles.antt =====
-- The precedence of Roles on concrete inputs.
use pgop.Prelude.{[], ◌∷◌, ◌≡◌, ◌≢◌, refl, inl, inr, none, ok, arith}
use pgop.Text.{Text, text}
use pgop.Text.Strings.{has_prefix}
use pgop.Roles.{Role, check_role_name}
use pgop.Roles.Precedence.{check_role_name-one}

abbrev role : Text → Text → Role
role uid name = record {
  uid = uid;
  name = name;
  created = 7;
  cluster = text "main";
  role_name = text "app";
  status_role_name = [];
  status_cluster_uid = [];
}

abbrev first : Role
first = role (text "1") (text "a")

abbrev second : Role
second = role (text "2") (text "b")

first_passes : check_role_name (ok (second ∷ first ∷ [])) first (text "app") ≡ none
unfolding check_role_name has_prefix pgop.Text.text_beq
first_passes = refl

check_role_name-one_example : check_role_name (ok (second ∷ first ∷ [])) second (text "app") ≢ none
unfolding pgop.Text.text_beq pgop.Roles.postgres_name
check_role_name-one_example =
    check_role_name-one (second ∷ first ∷ []) first second (text "app") (inr (inl refl)) (inl refl)
      refl refl (λ e. absurd (ground (arith, e))) refl refl first_passes
