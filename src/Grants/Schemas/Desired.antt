-- ===== src/Grants/Schemas/Desired.antt =====
-- The desired grants on schemas have distinct ledger keys and are those of the spec.
use pgop.Prelude.{
  Bool, true, false, not, ◌&&◌, ◌||◌, ◌⊎◌, inl, inr, List, [], ◌∷◌, ◌++◌, ◌≡◌, refl, ap, ◌∙◌, arith,
  contains, if◌then◌else◌, is_empty, Result, ok, err, ◌>>=◌, >>=-eq-ok, All, All-append, Bool-cases,
  ◌==◌, ==-refl, eq_of_==,
}
use pgop.Text.{Text, text_eq}
use pgop.Grants.Target.{PrivilegeGrant, key, desired_grant}
use pgop.Grants.Ledger.Merge.{has_key, HasDistinctKeys}
use pgop.Grants.Engine.Apply.Safety.{IsDeclaration}
use pgop.Grants.Database.{DatabaseGrantSpec, schema_target}
use pgop.Sql.Privileges.{SqlError, normalize_schema_privileges}
use pgop.Sql.Statements.{public_grantee}
use pgop.Grants.Schemas.{
  SchemaSpec, SchemaError, schema_privileges_or_error, desired_in_schema, Fields, desired_by_schema,
}

schema_privileges_or_error-ok :
    (schema role : Text) (r : Result SqlError (List Text)) {privs : List Text}
    → schema_privileges_or_error schema role r ≡ ok privs
    → r ≡ ok privs
schema_privileges_or_error-ok schema role (ok ps) h = ground (arith, h)
schema_privileges_or_error-ok schema role (err e) h = absurd (ground (arith, h))

-- The grants are those that the entries of the schema stand for, one for each.
abbrev pub StandFor : Text → List DatabaseGrantSpec → List PrivilegeGrant → Type 0
StandFor schema [] [] = Unit
StandFor schema [] (g ∷ gs) = ⊥
StandFor schema (s ∷ ss) [] = ⊥
StandFor schema (s ∷ ss) (g ∷ gs) =
    ((privs : List Text) × (normalize_schema_privileges s.privileges ≡ ok privs)
      × (desired_grant (schema_target schema s.role) privs s.with_grant_option ≡ g))
    × StandFor schema ss gs

-- The grants are those of the managed schemas of the spec, one schema after the other.
abbrev pub AreOf : List Text → List SchemaSpec → List PrivilegeGrant → Type 0
AreOf managed_schemas [] all = all ≡ []
AreOf managed_schemas (s ∷ ss) all =
    ((contains managed_schemas s.name ≡ false) × AreOf managed_schemas ss all)
    ⊎ ((contains managed_schemas s.name ≡ true)
        × (inside : List PrivilegeGrant) × (rest : List PrivilegeGrant) × StandFor s.name s.grants
            inside
        × AreOf managed_schemas ss rest
        × (inside ++ rest ≡ all))

-- A list of desired grants whose keys were not seen before.
pub record IsDesired (seen : List Text) (out : List PrivilegeGrant) : Type 0 where
  pub declared : All IsDeclaration out
  pub distinct : HasDistinctKeys out
  pub fresh : (k : Text) → contains seen k ≡ true → has_key out k ≡ false

has_key-append :
    (a b : List PrivilegeGrant) (k : Text) → has_key (a ++ b) k ≡ (has_key a k || has_key b k)
has_key-append [] b k = ground arith
has_key-append (g ∷ gs) b k = ground (arith, has_key-append gs b k)

append-HasDistinctKeys :
    (a b : List PrivilegeGrant)
    → HasDistinctKeys a
    → HasDistinctKeys b
    → ((k : Text) → has_key a k ≡ true → has_key b k ≡ false)
    → HasDistinctKeys (a ++ b)
append-HasDistinctKeys [] b d e f = e
append-HasDistinctKeys (g ∷ gs) b (new, d) e f = (
  ground (arith, has_key-append gs b (key g.target), new, f (key g.target), ==-refl (key g.target)),
  append-HasDistinctKeys gs b d e (λ k h. f k (ground (arith, h))),
)

desired_grant-IsDeclaration :
    (privs : List Text) (b : Bool) (p : Text)
    → contains (if b then privs else []) p ≡ true
    → contains privs p ≡ true
unfolding contains
desired_grant-IsDeclaration privs true p q = q
desired_grant-IsDeclaration privs false p q = cc q

desired_in_schema-step :
    (schema : Text) (seen : List Text) (g : DatabaseGrantSpec) (gs : List DatabaseGrantSpec)
    {out : List PrivilegeGrant} {after : List Text}
    → desired_in_schema schema seen (g ∷ gs) ≡ ok (out, after)
    → let t = schema_target schema g.role in
      (privs : List Text) × (rest : List PrivilegeGrant) × (contains seen (key t) ≡ false)
      × (normalize_schema_privileges g.privileges ≡ ok privs)
      × (desired_in_schema schema (key t ∷ seen) gs ≡ ok (rest, after))
      × (desired_grant t privs g.with_grant_option ∷ rest ≡ out)
unfolding desired_in_schema
desired_in_schema-step schema seen g gs {out} {after} h =
    let t = schema_target schema g.role in
    let new : contains seen (key t) ≡ false = ground (arith, h) in
    let public : (t.grantee == public_grantee && g.with_grant_option) ≡ false =
      ground (arith, h, new) in
    let pair : List Text
        → List PrivilegeGrant × List Text
        → Result SchemaError (List PrivilegeGrant × List Text) =
      λ privs rest. ok (desired_grant t privs g.with_grant_option ∷ rest.0, rest.1) in
    let body : (schema_privileges_or_error schema g.role (normalize_schema_privileges g.privileges)
          >>= λ privs. desired_in_schema schema (key t ∷ seen) gs >>= pair privs)
        ≡ ok (out, after) =
      ground (arith, new, public, h) in
    let (privs, k, h1) =
      >>=-eq-ok
        (schema_privileges_or_error schema g.role (normalize_schema_privileges g.privileges)) _
        body in
    let ((rest, later), l, h2) = >>=-eq-ok (desired_in_schema schema (key t ∷ seen) gs) _ h1 in
    let same : later ≡ after = cc h2 in
    (
      privs,
      rest,
      new,
      schema_privileges_or_error-ok schema g.role _ k,
      l ∙ ap (λ z. ok (rest, z)) same,
      cc h2,
    )

unseen :
    (seen : List Text) (j k : Text)
    → contains seen j ≡ false
    → contains seen k ≡ true
    → (j == k) ≡ false
unseen seen j k a b = elim (Bool-cases (j == k)) [
  | inl e ↦ ground (arith, ap (contains seen) (eq_of_== j k e), a, b)
  | inr e ↦ e
]

-- The keys that were seen afterwards, and the grants of one schema.
pub record IsInSchema (schema : Text) (specs : List DatabaseGrantSpec) (seen : List Text)
    (out : List PrivilegeGrant) (after : List Text) : Type 0 where
  pub stands : StandFor schema specs out
  pub desired : IsDesired seen out
  pub seen_after : (k : Text) → contains after k ≡ (contains seen k || has_key out k)

desired_in_schema-IsInSchema :
    (schema : Text) (seen : List Text) (specs : List DatabaseGrantSpec) (out : List PrivilegeGrant)
    (after : List Text)
    → desired_in_schema schema seen specs ≡ ok (out, after)
    → IsInSchema schema specs seen out after
unfolding desired_in_schema contains desired_grant
desired_in_schema-IsInSchema schema seen [] out after h =
    let same : ◌≡◌ {A = List PrivilegeGrant} [] out = cc h in
    let kept : seen ≡ after = cc h in
    rw (← same, ← kept)
      (record {
        stands = tt;
        desired = record { declared = tt; distinct = tt; fresh = λ k c. refl };
        seen_after = λ k. ground arith;
      })
desired_in_schema-IsInSchema schema seen (g ∷ gs) out after h =
    let (privs, rest, new, normal, later, made) = desired_in_schema-step schema seen g gs h in
    let t = schema_target schema g.role in
    let ih = desired_in_schema-IsInSchema schema (key t ∷ seen) gs rest after later in
    let d = ih.desired in
    rw (← made) (record {
      stands = ((privs, normal, refl), ih.stands);
      desired = record {
        declared = ((λ p q. desired_grant-IsDeclaration privs g.with_grant_option p q), d.declared);
        distinct = (d.fresh (key t) (ground (arith, ==-refl (key t))), d.distinct);
        fresh = λ k c. ground (arith, unseen seen (key t) k new c, d.fresh k (ground (arith, c)));
      };
      seen_after = λ k. ground (arith, ih.seen_after k);
    })

-- All the desired grants, of one schema after the other.
abbrev pub all_grants : Fields → List PrivilegeGrant
all_grants [] = []
all_grants ((schema, gs) ∷ fields) = gs ++ all_grants fields

join-IsDesired :
    (s : SchemaSpec) (seen after : List Text) (inside out : List PrivilegeGrant)
    → IsInSchema s.name s.grants seen inside after
    → IsDesired after out
    → IsDesired seen (inside ++ out)
join-IsDesired s seen after inside out i d = record {
  declared = All-append IsDeclaration inside out i.desired.declared d.declared;
  distinct =
      append-HasDistinctKeys inside out i.desired.distinct d.distinct
        (λ k h. d.fresh k (ground (arith, i.seen_after k, h)));
  fresh = λ k c. ground (
    arith,
    has_key-append inside out k,
    i.desired.fresh k c,
    d.fresh k (ground (arith, i.seen_after k, c)),
  );
}

-- A schema that is not managed, or has no grants, adds none.
skip-AreOf :
    (managed_schemas : List Text) (s : SchemaSpec) (ss : List SchemaSpec)
    (all : List PrivilegeGrant)
    → (not (contains managed_schemas s.name) || is_empty s.grants) ≡ true
    → AreOf managed_schemas ss all
    → AreOf managed_schemas (s ∷ ss) all
skip-AreOf managed_schemas s ss all h k = elim (Bool-cases (contains managed_schemas s.name)) [
  | inr f ↦ inl (f, k)
  | inl f ↦ inr (f, [], all, none_of s.grants (ground (arith, h, f)), k, refl)
]
  where
    none_of : (gs : List DatabaseGrantSpec) → is_empty gs ≡ true → StandFor s.name gs []
    none_of [] e = tt
    none_of (g ∷ gs) e = cc e

pub desired_by_schema-IsDesired :
    (managed_schemas fields seen : List Text) (ss : List SchemaSpec) (out : Fields)
    → desired_by_schema managed_schemas fields seen ss ≡ ok out
    → AreOf managed_schemas ss (all_grants out) × IsDesired seen (all_grants out)
unfolding desired_by_schema
desired_by_schema-IsDesired managed_schemas fields seen [] out h =
    let same : ◌≡◌ {A = Fields} [] out = cc h in
    rw (← same) (refl, record { declared = tt; distinct = tt; fresh = λ k c. refl })
desired_by_schema-IsDesired managed_schemas fields seen (s ∷ ss) out h =
    elim (Bool-cases (not (contains managed_schemas s.name) || is_empty s.grants)) [
      | inl skipped ↦
          let (a, d) =
            desired_by_schema-IsDesired managed_schemas fields seen ss out
              (ground (arith, skipped, h)) in
          (skip-AreOf managed_schemas s ss (all_grants out) skipped a, d)
      | inr taken ↦
          let new : contains fields s.name ≡ false = ground (arith, taken, h) in
          let later : List PrivilegeGrant × List Text → Result SchemaError Fields = λ inside.
            desired_by_schema managed_schemas (s.name ∷ fields) inside.1 ss >>= λ rest.
            ok ((s.name, inside.0) ∷ rest) in
          let body : (desired_in_schema s.name seen s.grants >>= later) ≡ ok out =
            ground (arith, taken, new, h) in
          let ((inside, after), a, h1) =
            >>=-eq-ok (desired_in_schema s.name seen s.grants) later body in
          let (rest, b, h2) =
            >>=-eq-ok (desired_by_schema managed_schemas (s.name ∷ fields) after ss) _ h1 in
          let same : (s.name, inside) ∷ rest ≡ out = cc h2 in
          let i = desired_in_schema-IsInSchema s.name seen s.grants inside after a in
          let (of, d) =
            desired_by_schema-IsDesired managed_schemas (s.name ∷ fields) after ss rest b in
          rw (← same) (
            inr (ground (arith, taken), inside, all_grants rest, i.stands, of, refl),
            join-IsDesired s seen after inside (all_grants rest) i d,
          )
    ]
