-- ===== src/Grants/Parameters/Allowed.antt =====
-- The desired parameter grants have distinct ledger keys and are on parameters that are not denied.
use pgop.Prelude.{
  Bool, true, false, ◌||◌, List, [], ◌∷◌, ◌==◌, ◌≡◌, ◌⊎◌, inl, inr, refl, ap, contains, Result, ok,
  err, ◌>>=◌, >>=-eq-ok, All, All-map, arith, Bool-cases, ==-refl, eq_of_==,
}
use pgop.Text.{Text, text_eq, text}
use pgop.Grants.Target.{GrantTarget, PrivilegeGrant, key, desired_grant}
use pgop.Grants.Target.Keys.{HasNoBar, key-eq_iff}
use pgop.Grants.Ledger.Merge.{has_key, HasDistinctKeys}
use pgop.Grants.Engine.Apply.Safety.{IsDeclaration}
use pgop.Grants.Database.{parameter_target, target_on}
use pgop.Sql.Privileges.{
  SqlError, normalize_parameter_name, normalize_parameter_privileges, denied_parameter,
}
use pgop.Grants.Parameters.{
  ParameterGrantSpec, ParameterError, Desired, name_or_error, privileges_or_error, deny, grant_too,
  desired_parameter, desired_parameters,
}

parameter-HasNoBar : HasNoBar (text "PARAMETER")
parameter-HasNoBar = (
  (λ h. ground (arith, h)),
  (
    (λ h. ground (arith, h)),
    (
      (λ h. ground (arith, h)),
      (
        (λ h. ground (arith, h)),
        (
          (λ h. ground (arith, h)),
          (
            (λ h. ground (arith, h)),
            ((λ h. ground (arith, h)), ((λ h. ground (arith, h)), ((λ h. ground (arith, h)), tt))),
          ),
        ),
      ),
    ),
  ),
)

key_of-parameter :
    (member a b : Text) → key (parameter_target a member) ≡ key (parameter_target b member) → a ≡ b
unfolding parameter_target target_on
key_of-parameter member a b h =
    let same =
      (key-eq_iff (parameter_target a member) (parameter_target b member) parameter-HasNoBar
          parameter-HasNoBar).0
        h in
    same.name refl

-- The spec has a grant on the parameter.
abbrev pub IsListed : List ParameterGrantSpec → Text → Type 0
IsListed [] name = ⊥
IsListed (g ∷ gs) name = (normalize_parameter_name g.parameter ≡ ok name) ⊎ IsListed gs name

-- A grant of the spec on a parameter that is not denied.
abbrev pub IsParameterGrant : List ParameterGrantSpec → Text → PrivilegeGrant → Type 0
IsParameterGrant specs member g =
    (g.target ≡ parameter_target g.target.name member)
    × IsListed specs g.target.name
    × (denied_parameter g.target.name ≡ false)
    × IsDeclaration g

deny-ok :
    (name : Text) (rest : Result ParameterError Desired) {out : List PrivilegeGrant}
    {denied : List Text}
    → deny name rest ≡ ok (out, denied)
    → (later : List Text) × (rest ≡ ok (out, later))
deny-ok name (err e) h = absurd (ground (arith, h))
deny-ok name (ok (out', later)) {out} h = let same : out' ≡ out = cc h in (later, rw same refl)

grant_too-ok :
    (g : PrivilegeGrant) (rest : Result ParameterError Desired) {out : List PrivilegeGrant}
    {denied : List Text}
    → grant_too g rest ≡ ok (out, denied)
    → (out' : List PrivilegeGrant) × (rest ≡ ok (out', denied)) × (g ∷ out' ≡ out)
grant_too-ok g (err e) h = absurd (ground (arith, h))
grant_too-ok g (ok (out', later)) {out} {denied} h =
    let same : later ≡ denied = cc h in (out', rw same refl, cc h)

-- The grants are those that the entries of the spec stand for, one for each whose parameter is not
-- denied.
abbrev pub StandFor : List ParameterGrantSpec → Text → List PrivilegeGrant → Type 0
StandFor [] member out = out ≡ []
StandFor (s ∷ ss) member out =
    (name : Text) × (normalize_parameter_name s.parameter ≡ ok name)
    × (((denied_parameter name ≡ true) × StandFor ss member out)
        ⊎ ((denied_parameter name ≡ false)
            × (privs : List Text) × (rest : List PrivilegeGrant) × (normalize_parameter_privileges
                  s.privileges
                ≡ ok privs)
            × StandFor ss member rest
            × (desired_grant (parameter_target name member) privs s.with_grant_option ∷ rest
                ≡ out)))

privileges_or_error-ok :
    (name : Text) (r : Result SqlError (List Text)) {privs : List Text}
    → privileges_or_error name r ≡ ok privs
    → r ≡ ok privs
privileges_or_error-ok name (ok ps) h = ground (arith, h)
privileges_or_error-ok name (err e) h = absurd (ground (arith, h))

-- What a successful round has done.
desired_parameter-ok :
    (member : Text) (seen : List Text) (g : ParameterGrantSpec) (name : Text)
    (rest : Result ParameterError Desired) {out : List PrivilegeGrant} {denied : List Text}
    → desired_parameter member seen g name rest ≡ ok (out, denied)
    → (contains seen name ≡ false)
      × ((out' : List PrivilegeGrant) × (later : List Text) × (rest ≡ ok (out', later))
          × (((denied_parameter name ≡ true) × (out' ≡ out))
              ⊎ ((privs : List Text) × (denied_parameter name ≡ false)
                  × (desired_grant (parameter_target name member) privs g.with_grant_option ∷ out'
                      ≡ out)
                  × (normalize_parameter_privileges g.privileges ≡ ok privs))))
unfolding desired_parameter
desired_parameter-ok member seen g name rest {out} {denied} h =
    let new : contains seen name ≡ false = ground (arith, h) in
    elim (Bool-cases (denied_parameter name)) [
      | inl bad ↦
          let round : deny name rest ≡ ok (out, denied) = ground (arith, h, new, bad) in
          let (later, r) = deny-ok name rest round in (new, (out, later, r, inl (bad, refl)))
      | inr good ↦
          let round : (privileges_or_error name (normalize_parameter_privileges g.privileges)
                >>= λ privs.
                    grant_too
                      (desired_grant (parameter_target name member) privs g.with_grant_option) rest)
              ≡ ok (out, denied) =
            ground (arith, h, new, good) in
          let (privs, k, h') =
            >>=-eq-ok (privileges_or_error name (normalize_parameter_privileges g.privileges)) _
              round in
          let (out', r, made) = grant_too-ok _ rest h' in
          (new, (out', denied, r, inr (privs, good, made, privileges_or_error-ok name _ k)))
    ]

-- What the desired grants are.
pub record IsFine (specs : List ParameterGrantSpec) (member : Text) (seen : List Text)
    (out : List PrivilegeGrant) : Type 0 where
  pub stands : StandFor specs member out
  pub grants : All (IsParameterGrant specs member) out
  pub distinct : HasDistinctKeys out
  pub fresh :
      (n : Text) → contains seen n ≡ true → has_key out (key (parameter_target n member)) ≡ false

more_specs :
    (spec : ParameterGrantSpec) (specs : List ParameterGrantSpec) (member : Text)
    (out : List PrivilegeGrant)
    → All (IsParameterGrant specs member) out
    → All (IsParameterGrant (spec ∷ specs) member) out
more_specs spec specs member = All-map (λ g p. (p.0, inr p.1, p.2, p.3))

name_or_error-ok :
    (r : Result SqlError Text) {name : Text} → name_or_error r ≡ ok name → r ≡ ok name
name_or_error-ok (err e) h = absurd (ground (arith, h))
name_or_error-ok (ok n) {name} h = let same : n ≡ name = cc h in rw same refl

later-IsFine :
    (spec : ParameterGrantSpec) (specs : List ParameterGrantSpec) (member : Text) (seen : List Text)
    (name : Text) (out : List PrivilegeGrant)
    → normalize_parameter_name spec.parameter ≡ ok name
    → denied_parameter name ≡ true
    → IsFine specs member (name ∷ seen) out
    → IsFine (spec ∷ specs) member seen out
unfolding contains
later-IsFine spec specs member seen name out listed bad f = record {
  stands = (name, listed, inl (bad, f.stands));
  grants = more_specs spec specs member out f.grants;
  distinct = f.distinct;
  fresh = λ n h. f.fresh n (ground (arith, h));
}

grant-IsDeclaration :
    (t : GrantTarget) (privs : List Text) (b : Bool) → IsDeclaration (desired_grant t privs b)
unfolding desired_grant contains
grant-IsDeclaration t privs true p q = q
grant-IsDeclaration t privs false p q = absurd (ground (arith, q))

added-IsFine :
    (spec : ParameterGrantSpec) (specs : List ParameterGrantSpec) (member : Text) (seen : List Text)
    (name : Text) (out : List PrivilegeGrant) (privs : List Text)
    → normalize_parameter_privileges spec.privileges ≡ ok privs
    → contains seen name ≡ false
    → denied_parameter name ≡ false
    → normalize_parameter_name spec.parameter ≡ ok name
    → IsFine specs member (name ∷ seen) out
    → IsFine
        (spec ∷ specs)
        member
        seen
        (desired_grant (parameter_target name member) privs spec.with_grant_option ∷ out)
unfolding contains desired_grant parameter_target target_on
added-IsFine spec specs member seen name out privs normal new good listed f = record {
  stands = (name, listed, inr (good, privs, out, normal, f.stands, refl));
  grants = (
    (
      refl,
      inl listed,
      good,
      grant-IsDeclaration (parameter_target name member) privs spec.with_grant_option,
    ),
    more_specs spec specs member out f.grants,
  );
  distinct = (f.fresh name (ground (arith, ==-refl name)), f.distinct);
  fresh = λ n h. unseen n h;
}
  where
    unseen :
        (n : Text)
        → contains seen n ≡ true
        → (key (parameter_target name member) == key (parameter_target n member)
            || has_key out (key (parameter_target n member)))
          ≡ false
    unseen n h =
        elim (Bool-cases (key (parameter_target name member) == key (parameter_target n member))) [
          | inl e ↦
              let same = key_of-parameter member name n (
                eq_of_== (key (parameter_target name member)) (key (parameter_target n member))
                  e) in
              absurd (ground (arith, ap (contains seen) same, new, h))
          | inr e ↦ ground (arith, e, f.fresh n (ground (arith, h)))
        ]

pub desired_parameters-IsFine :
    (member : Text) (seen : List Text) (gs : List ParameterGrantSpec) {out : List PrivilegeGrant}
    {denied : List Text}
    → desired_parameters member seen gs ≡ ok (out, denied)
    → IsFine gs member seen out
unfolding desired_parameters
desired_parameters-IsFine member seen [] {out} h =
    let same : ◌≡◌ {A = List PrivilegeGrant} [] out = cc h in
    rw (← same) (record { stands = refl; grants = tt; distinct = tt; fresh = λ n k. refl })
desired_parameters-IsFine member seen (g ∷ gs) {out} {denied} h =
    let (name, named, h') = >>=-eq-ok (name_or_error (normalize_parameter_name g.parameter)) _ h in
    let (new, (out', later, r, made)) = desired_parameter-ok member seen g name _ h' in
    let f = desired_parameters-IsFine member (name ∷ seen) gs r in
    elim made [
      | inl (bad, same) ↦
          rw (← same) (later-IsFine g gs member seen name out' (name_or_error-ok _ named) bad f)
      | inr (privs, good, same, normal) ↦ rw (← same) (
          added-IsFine g gs member seen name out' privs normal new good (name_or_error-ok _ named)
            f)
    ]
