-- ===== src/Grants/Database/Keys.antt =====
-- What the desired grants and the ledgers of a database give the engine.
use pgop.Prelude.{
  Bool, true, false, ◌&&◌, List, [], ◌∷◌, ◌≡◌, refl, sym, ◌∙◌, ap, ap₂, arith, ◌==◌, if◌then◌else◌,
  contains, ok, ◌>>=◌, >>=-eq-ok, All, Bool-cases, inl, inr, eq_of_==, ==-refl,
}
use pgop.Text.{Text, text_eq, text}
use pgop.Grants.Target.{GrantTarget, PrivilegeGrant, key, desired_grant}
use pgop.Grants.Target.Keys.{HasNoBar, key-eq_iff}
use pgop.Grants.Ledger.Merge.{has_key, HasDistinctKeys}
use pgop.Grants.Engine.Apply.Safety.{IsDeclaration}
use pgop.Policy.Roles.{canonical_grantee}
use pgop.Sql.Statements.{public_grantee}
use pgop.Sql.Privileges.{normalize_database_privileges}
use pgop.Grants.Database.{
  target_on, database_target, DatabaseGrantSpec, privileges_or_error, desired_each,
  desired_database_grants, database_ledger, database_ledger_status, grant_options_of,
}

database-HasNoBar : HasNoBar (text "DATABASE")
database-HasNoBar = (
  (λ h. ground (arith, h)),
  (
    (λ h. ground (arith, h)),
    (
      (λ h. ground (arith, h)),
      (
        (λ h. ground (arith, h)),
        (
          (λ h. ground (arith, h)),
          ((λ h. ground (arith, h)), ((λ h. ground (arith, h)), ((λ h. ground (arith, h)), tt))),
        ),
      ),
    ),
  ),
)

key_of-grantee :
    (name a b : Text)
    → key (target_on (text "DATABASE") name a) ≡ key (target_on (text "DATABASE") name b)
    → a ≡ b
unfolding target_on
key_of-grantee name a b h = ((key-eq_iff _ _ database-HasNoBar database-HasNoBar).0 h).grantee

-- What a successful step of the loop has done.
pub desired_each-step :
    (name : Text) (seen : List Text) (g : DatabaseGrantSpec) (gs : List DatabaseGrantSpec)
    (out : List PrivilegeGrant)
    → desired_each name seen (g ∷ gs) ≡ ok out
    → let t = canonical_grantee g.role in
      (privs : List Text) × (rest : List PrivilegeGrant) × (contains seen t ≡ false)
      × (desired_each name (t ∷ seen) gs ≡ ok rest)
      × (desired_grant (target_on (text "DATABASE") name t) privs g.with_grant_option ∷ rest ≡ out)
      × (privileges_or_error g.role (normalize_database_privileges g.privileges) ≡ ok privs)
unfolding desired_each database_target target_on
desired_each-step name seen g gs out h =
    let t = canonical_grantee g.role in
    elim (Bool-cases (contains seen t)) [
      | inl e ↦ ground (arith, e, h)
      | inr e ↦ elim (Bool-cases (t == public_grantee && g.with_grant_option)) [
        | inl f ↦ ground (arith, e, f, h)
        | inr f ↦
            let body : (privileges_or_error g.role (normalize_database_privileges g.privileges)
                  >>= λ privs. desired_each name (t ∷ seen) gs >>= λ rest. ok (
                      desired_grant (target_on (text "DATABASE") name t) privs g.with_grant_option
                      ∷ rest))
                ≡ ok out =
              ground (arith, e, f, h) in
            let (privs, k, h1) =
              >>=-eq-ok (privileges_or_error g.role (normalize_database_privileges g.privileges)) _
                body in
            let (rest, l, h2) = >>=-eq-ok (desired_each name (t ∷ seen) gs) _ h1 in
            (privs, rest, e, l, cc h2, k)
      ]
    ]

-- A grantee that was seen has no key in the rest.
desired_each-fresh :
    (name : Text) (seen : List Text) (gs : List DatabaseGrantSpec) (out : List PrivilegeGrant)
    (grantee : Text)
    → desired_each name seen gs ≡ ok out
    → contains seen grantee ≡ true
    → has_key out (key (target_on (text "DATABASE") name grantee)) ≡ false
unfolding desired_each contains
desired_each-fresh name seen [] out grantee h k = ground (arith, h)
desired_each-fresh name seen (g ∷ gs) out grantee h k =
    let (privs, rest, fresh, later, made, _) = desired_each-step name seen g gs out h in
    let t = canonical_grantee g.role in
    let ih = desired_each-fresh name (t ∷ seen) gs rest grantee later (ground (arith, k)) in
    let k1 = key (target_on (text "DATABASE") name t) in
    let k2 = key (target_on (text "DATABASE") name grantee) in
    elim (Bool-cases (k1 == k2)) [
      | inl e ↦
          let same = key_of-grantee name t grantee (eq_of_== k1 k2 e) in
          ground (arith, ap (contains seen) same, fresh, k)
      | inr e ↦ ap (λ l. has_key l k2) (sym made) ∙ ground (arith, e, ih)
    ]

desired_each-IsDesired :
    (name : Text) (seen : List Text) (gs : List DatabaseGrantSpec) (out : List PrivilegeGrant)
    → desired_each name seen gs ≡ ok out
    → HasDistinctKeys out × All IsDeclaration out
unfolding desired_each contains desired_grant
desired_each-IsDesired name seen [] out h =
    let same : ◌≡◌ {A = List PrivilegeGrant} [] out = cc h in rw (← same) (tt, tt)
desired_each-IsDesired name seen (g ∷ gs) out h =
    let (privs, rest, fresh, later, made, _) = desired_each-step name seen g gs out h in
    let t = canonical_grantee g.role in
    let (distinct, declared) = desired_each-IsDesired name (t ∷ seen) gs rest later in
    let new = desired_each-fresh name (t ∷ seen) gs rest t later (ground (arith, ==-refl t)) in
    rw (← made) (
      (new, distinct),
      ((λ p q. desired_grant-IsDeclaration t privs g.with_grant_option p q), declared),
    )
  where
    desired_grant-IsDeclaration :
        (t : Text) (privs : List Text) (b : Bool) (p : Text)
        → contains (if b then privs else []) p ≡ true
        → contains privs p ≡ true
    desired_grant-IsDeclaration t privs true p q = q
    desired_grant-IsDeclaration t privs false p q = cc q

-- The desired grants of a database have distinct ledger keys, and declare grant options for declared
-- privileges only, as the grant engine takes its grants to.
pub desired_database_grants_lem :
    (grants : List DatabaseGrantSpec) (name : Text) (out : List PrivilegeGrant)
    → desired_database_grants grants name ≡ ok out
    → HasDistinctKeys out × All IsDeclaration out
unfolding desired_database_grants
desired_database_grants_lem grants name out h = desired_each-IsDesired name [] grants out h

-- A grant that the ledger of the database may hold.
abbrev pub IsOnDatabase : Text → PrivilegeGrant → Type 0
IsOnDatabase name g =
    (g.target ≡ target_on (text "DATABASE") name g.target.grantee)
    × (canonical_grantee g.target.grantee ≡ g.target.grantee)

-- A ledger of grants on the database, whose grantees have their canonical names, is read from the
-- status as it was written.
database_ledger-database_ledger_status :
    (name : Text) (ledger : List PrivilegeGrant)
    → All (IsOnDatabase name) ledger
    → database_ledger name (database_ledger_status ledger) ≡ ledger
unfolding database_ledger database_ledger_status grant_options_of database_target
database_ledger-database_ledger_status name [] h = refl
database_ledger-database_ledger_status name (g ∷ gs) ((on, canonical), h) =
    let ih = database_ledger-database_ledger_status name gs h in
    ap₂ (λ (t : GrantTarget) (l : List PrivilegeGrant). record g { target = t } ∷ l)
      (ap (target_on (text "DATABASE") name) canonical ∙ sym on) ih
