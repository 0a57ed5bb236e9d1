-- ===== src/Grants/Target.antt =====
-- `grantTarget` and `privilegeGrant` of internal/controller/privilege_grants.go.
pub mod Keys
use pgop.Prelude.{
  ℕ, Bool, true, false, not, ◌&&◌, List, [], ◌∷◌, ◌++◌, ◌==◌, nat_eq, if◌then◌else◌, is_empty,
}
use pgop.Text.{Text, text_eq, text}
use pgop.Text.Strconv.{quote, format_int}

-- `oid` is 0 and `schema` and `for_role` are empty where the source leaves them out.
pub record GrantTarget : Type 0 where
  pub kind : Text
  pub name : Text
  pub grantee : Text
  pub schema : Text
  pub for_role : Text
  pub oid : ℕ

key_name : GrantTarget → Text
key_name t = if t.oid == 0 then quote t.name else b'#' ∷ format_int t.oid

unfoldable pub key : GrantTarget → Text
unfolding key_name
key t =
    let k = t.kind ++ (b'|' ∷ (key_name t ++ (b'|' ∷ quote t.grantee))) in
    if t.for_role == [] then k else k ++ (b'|' ∷ quote t.for_role)

pub record PrivilegeGrant : Type 0 where
  pub target : GrantTarget
  pub privileges : List Text
  pub grant_options : List Text

-- The zero value of a map of grants.
abbrev pub no_target : GrantTarget
no_target = record { kind = []; name = []; grantee = []; schema = []; for_role = []; oid = 0 }

abbrev pub no_grant : PrivilegeGrant
no_grant = record { target = no_target; privileges = []; grant_options = [] }

-- The entry of a target that records nothing.
abbrev pub nothing_on : GrantTarget → PrivilegeGrant
nothing_on t = record { target = t; privileges = []; grant_options = [] }

unfoldable pub empty : PrivilegeGrant → Bool
empty g = is_empty g.privileges && is_empty g.grant_options

unfoldable pub desired_grant : GrantTarget → List Text → Bool → PrivilegeGrant
desired_grant t privileges with_grant_option = record {
  target = t;
  privileges = privileges;
  grant_options = if with_grant_option then privileges else [];
}
