-- ===== src/Policy/Grantee/Kept.antt =====
-- What the filter of the grantee policy keeps of a list of desired grants.
use pgop.Prelude.{
  false, List, [], ◌∷◌, ◌++◌, ◌∙◌, ap, sym, ◌≡◌, refl, sym, arith, if◌then◌else◌, Result, ok, err,
  All,
}
use pgop.Text.{Text, text_eq}
use pgop.Grants.Target.{PrivilegeGrant, key}
use pgop.Grants.Ledger.Merge.{has_key, HasDistinctKeys}
use pgop.Grants.Engine.{CallError}
use pgop.Grants.Engine.Apply.Safety.{IsDeclaration}
use pgop.Policy.Grantee.{
  Verdict, allowed, missing, paused, is_public_role, refused, Checker, Lookup, decide, keep_grant,
  is_allowed,
}
use pgop.Policy.Grantee.Cache.{keep_if, allowed_grants}

module _ (lookup : Lookup) (c : Checker) where
  abbrev pub IsAllowed : PrivilegeGrant → Type 0
  IsAllowed g = decide lookup c g.target.grantee ≡ ok allowed

  -- What the filter keeps of grants that have a property.
  pub record IsKept (all out : List PrivilegeGrant) : Type 0 where
    pub permitted : All IsAllowed out
    pub distinct : HasDistinctKeys out
    pub declared : All IsDeclaration out
    pub fewer : (k : Text) → has_key all k ≡ false → has_key out k ≡ false

  skipped :
      (g : PrivilegeGrant) (gs rest : List PrivilegeGrant) → IsKept gs rest → IsKept (g ∷ gs) rest
  skipped g gs rest k = record {
    permitted = k.permitted;
    distinct = k.distinct;
    declared = k.declared;
    fewer = λ q h. k.fewer q (ground (arith, h));
  }

  one_more :
      (g : PrivilegeGrant) (gs rest : List PrivilegeGrant) (v : Verdict)
      → decide lookup c g.target.grantee ≡ ok v
      → has_key gs (key g.target) ≡ false
      → IsDeclaration g
      → IsKept gs rest
      → IsKept (g ∷ gs) (if is_allowed v then g ∷ rest else rest)
  one_more g gs rest allowed d new decl k = record {
    permitted = (d, k.permitted);
    distinct = (k.fewer (key g.target) new, k.distinct);
    declared = (decl, k.declared);
    fewer = λ q h. ground (arith, h, k.fewer q);
  }
  one_more g gs rest missing d new decl k = skipped g gs rest k
  one_more g gs rest paused d new decl k = skipped g gs rest k
  one_more g gs rest is_public_role d new decl k = skipped g gs rest k
  one_more g gs rest (refused r) d new decl k = skipped g gs rest k

  pub allowed_grants-IsKept :
      (all : List PrivilegeGrant) {out : List PrivilegeGrant}
      → HasDistinctKeys all
      → All IsDeclaration all
      → allowed_grants (decide lookup c) all ≡ ok out
      → IsKept all out
  unfolding allowed_grants
  allowed_grants-IsKept [] {out} d l e =
      let same : ◌≡◌ {A = List PrivilegeGrant} [] out = cc e in
      rw (← same) (record { permitted = tt; distinct = tt; declared = tt; fewer = λ k n. n })
  allowed_grants-IsKept (g ∷ gs) {out} (new, d) (decl, l) e =
      on (decide lookup c g.target.grantee) (allowed_grants (decide lookup c) gs) refl
        (λ rest' b. allowed_grants-IsKept gs d l b) e
    where
      on :
          (v : Result CallError Verdict) (rest : Result CallError (List PrivilegeGrant))
          → decide lookup c g.target.grantee ≡ v
          → ((rest' : List PrivilegeGrant) → rest ≡ ok rest' → IsKept gs rest')
          → keep_if g rest v ≡ ok out
          → IsKept (g ∷ gs) out
      on (err x) rest a later e' = absurd (ground (arith, e'))
      on (ok v) (err x) a later e' = absurd (ground (arith, e'))
      on (ok v) (ok rest) a later e' =
          let same : (if is_allowed v then g ∷ rest else rest) ≡ out = cc e' in
          rw (← same) (one_more g gs rest v a new decl (later rest refl))

-- Lists that are filtered one after the other are filtered as one.
pub allowed_grants-append :
    (decision : Text → Result CallError Verdict) (a b : List PrivilegeGrant)
    {x y : List PrivilegeGrant}
    → allowed_grants decision a ≡ ok x
    → allowed_grants decision b ≡ ok y
    → allowed_grants decision (a ++ b) ≡ ok (x ++ y)
unfolding allowed_grants
allowed_grants-append decision [] b {x} {y} h k =
    let same : ◌≡◌ {A = List PrivilegeGrant} [] x = cc h in k ∙ ap (λ z. ok (z ++ y)) same
allowed_grants-append decision (g ∷ gs) b {x} {y} h k =
    on (decision g.target.grantee) (allowed_grants decision gs)
      (λ z e. allowed_grants-append decision gs b e k) h
  where
    joined :
        (v : Verdict) (z : List PrivilegeGrant)
        → (if is_allowed v then g ∷ z else z) ++ y
          ≡ (if is_allowed v then g ∷ (z ++ y) else (z ++ y))
    joined v z = ground arith

    on :
        (v : Result CallError Verdict) (r : Result CallError (List PrivilegeGrant))
        → ((z : List PrivilegeGrant) → r ≡ ok z → allowed_grants decision (gs ++ b) ≡ ok (z ++ y))
        → keep_if g r v ≡ ok x
        → keep_if g (allowed_grants decision (gs ++ b)) v ≡ ok (x ++ y)
    on (err e) r ih e' = absurd (ground (arith, e'))
    on (ok v) (err e) ih e' = absurd (ground (arith, e'))
    on (ok v) (ok z) ih e' =
        let same : (if is_allowed v then g ∷ z else z) ≡ x = cc e' in
        ap (keep_grant v g) (ih z refl) ∙ ap ok (sym (joined v z)) ∙ ap (λ w. ok (w ++ y)) same
