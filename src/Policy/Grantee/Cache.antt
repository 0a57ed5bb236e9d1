-- ===== src/Policy/Grantee/Cache.antt =====
-- The caches of the checker change no verdict, and the filter keeps the allowed grants.
use pgop.Prelude.{List, [], ◌∷◌, ◌≡◌, refl, arith, Option, none, some, Result, ok, err, ap, sym}
use pgop.Text.{Text, text_eq, text_beq_iff}
use pgop.Grants.Target.{PrivilegeGrant}
use pgop.Grants.Engine.{CallError}
use pgop.Policy.Grantee.{
  Verdict, allowed, missing, paused, is_public_role, refused, Checker, Lookup, decide, Cache,
  cached, remember, check_with, check, GrantFilter, hold_back, keep_grant, filter_one, filter,
}

-- Every cached verdict is the one that would be decided.
abbrev pub IsFresh : (Text → Result CallError Verdict) → Cache → Type 0
IsFresh decision cache = (g : Text) (v : Verdict) → cached cache g ≡ some v → decision g ≡ ok v

module _ (decision : Text → Result CallError Verdict) where
  remember-IsFresh :
      (cache : Cache) (g : Text) (v : Verdict)
      → decision g ≡ ok v
      → IsFresh decision cache
      → IsFresh decision ((g, v) ∷ cache)
  unfolding cached
  remember-IsFresh cache g v e h j w k = ground (arith, text_beq_iff g j, h j w)

  unfoldable decided :
      (cache : Cache) (g : Text) (r : Result CallError Verdict)
      → decision g ≡ r
      → IsFresh decision cache
      → IsFresh decision (remember cache g r).1
  decided cache g (ok v) e h = remember-IsFresh cache g v e h
  decided cache g (err x) e h = h

  remembered :
      (cache : Cache) (g : Text) (r : Result CallError Verdict) → (remember cache g r).0 ≡ r
  remembered cache g (ok v) = refl
  remembered cache g (err x) = refl

  -- A check answers what is decided, and leaves a fresh cache fresh.
  pub check_with_lem :
      (cache : Cache) (g : Text)
      → IsFresh decision cache
      → ((check_with decision cache g).0 ≡ decision g)
        × IsFresh decision (check_with decision cache g).1
  unfolding check_with
  check_with_lem cache g h = go (cached cache g) refl
    where
      go :
          (o : Option Verdict)
          → cached cache g ≡ o
          → ((check_with decision cache g).0 ≡ decision g)
            × IsFresh decision (check_with decision cache g).1
      go (some v) e = rw (e, check_with) (sym (h g v e), h)
      go none e =
          rw (e, check_with) (remembered cache g (decision g), decided cache g (decision g) refl h)

abbrev pub keep_if :
    PrivilegeGrant
    → Result CallError (List PrivilegeGrant)
    → Result CallError Verdict
    → Result CallError (List PrivilegeGrant)
keep_if g rest (ok v) = keep_grant v g rest
keep_if g rest (err e) = err e

-- The grants whose grantee is allowed, decided one by one without a cache.
unfoldable pub allowed_grants :
    (Text → Result CallError Verdict) → List PrivilegeGrant → Result CallError (List PrivilegeGrant)
allowed_grants decision [] = ok []
allowed_grants decision (g ∷ gs) =
    keep_if g (allowed_grants decision gs) (decision g.target.grantee)

module _ (lookup : Lookup) (c : Checker) where
  hold_back-cache :
      (f : GrantFilter) (grantee : Text) (v : Verdict) → (hold_back f grantee v).cache ≡ f.cache
  hold_back-cache f grantee allowed = refl
  hold_back-cache f grantee missing = refl
  hold_back-cache f grantee paused = refl
  hold_back-cache f grantee is_public_role = refl
  hold_back-cache f grantee (refused p) = refl

  -- A filter whose cache holds verdicts that the decision gives, of earlier lists of the reconcile,
  -- keeps exactly the grants whose grantee the decision allows, in their order, and stops at the
  -- first grantee that cannot be looked up.
  pub filter_lem :
      (f : GrantFilter) (gs : List PrivilegeGrant)
      → IsFresh (decide lookup c) f.cache
      → (filter lookup c f gs).0 ≡ allowed_grants (decide lookup c) gs
  unfolding filter filter_one allowed_grants
  filter_lem f [] h = refl
  filter_lem f (g ∷ gs) h =
      let (same, fresh) = check_with_lem (decide lookup c) f.cache g.target.grantee h in
      one (λ f'. filter lookup c f' gs) (λ f'. filter_lem f' gs)
        (check lookup c f.cache g.target.grantee) same fresh
    where
      one :
          (later : GrantFilter → Result CallError (List PrivilegeGrant) × GrantFilter)
          → ((f' : GrantFilter)
              → IsFresh (decide lookup c) f'.cache
              → (later f').0 ≡ allowed_grants (decide lookup c) gs)
          → (a : Result CallError Verdict × Cache) → a.0 ≡ decide lookup c g.target.grantee
          → IsFresh (decide lookup c) a.1
          → (filter_one later f g a).0 ≡ allowed_grants (decide lookup c) (g ∷ gs)
      one later ih (ok v, cache) same fresh =
          let known : IsFresh (decide lookup c)
              (hold_back (record f { cache = cache }) g.target.grantee v).cache =
            rw (hold_back-cache (record f { cache = cache }) g.target.grantee v) fresh in
          rw (← same) (
            ap (keep_grant v g)
              (ih (hold_back (record f { cache = cache }) g.target.grantee v) known))
      one later ih (err x, cache) same fresh = rw (← same) refl

  -- The filter leaves a cache of verdicts that the decision gives.
  pub filter-IsFresh :
      (f : GrantFilter) (gs : List PrivilegeGrant)
      → IsFresh (decide lookup c) f.cache
      → IsFresh (decide lookup c) (filter lookup c f gs).1.cache
  unfolding filter filter_one
  filter-IsFresh f [] h = h
  filter-IsFresh f (g ∷ gs) h =
      one (λ f'. filter lookup c f' gs) (λ f'. filter-IsFresh f' gs)
        (check lookup c f.cache g.target.grantee)
        (check_with_lem (decide lookup c) f.cache g.target.grantee h).1
    where
      one :
          (later : GrantFilter → Result CallError (List PrivilegeGrant) × GrantFilter)
          → ((f' : GrantFilter)
              → IsFresh (decide lookup c) f'.cache
              → IsFresh (decide lookup c) (later f').1.cache)
          → (a : Result CallError Verdict × Cache) → IsFresh (decide lookup c) a.1
          → IsFresh (decide lookup c) (filter_one later f g a).1.cache
      one later ih (ok v, cache) fresh =
          ih (hold_back (record f { cache = cache }) g.target.grantee v)
            (rw (hold_back-cache (record f { cache = cache }) g.target.grantee v) fresh)
      one later ih (err x, cache) fresh = fresh
