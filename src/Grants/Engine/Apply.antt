-- ===== src/Grants/Engine/Apply.antt =====
-- `planMissing` and `applyPrivilegeGrants` of internal/controller/privilege_grants.go.
pub mod Safety
pub mod Calls
pub mod Limit
use pgop.Prelude.{
  ℕ, Bool, true, false, ◌&&◌, List, [], ◌∷◌, ◌++◌, Option, none, some, Result, ok, err, ltb,
  if◌then◌else◌, is_empty, length, map,
}
use pgop.Text.{Text}
use pgop.Text.Sort.{sort}
use pgop.Grants.Sets.{subtract, union}
use pgop.Grants.Target.{GrantTarget, PrivilegeGrant, key, empty}
use pgop.Grants.Ledger.{Ledger, get, put, remove, keys, merge_grant, tracked, want, sorted_grants}
use pgop.Grants.Engine.{CallError, Ops, M, ◌>>=◌, pure, call_held, call_grant, call_persist}
use pgop.Grants.Engine.Revoke.{Revoked, revoke_removed}

-- The errors that the engine reports, joined.
pub data GrantError : Type 0 where
  too_many_grants : ℕ → ℕ → GrantError
  call_failed : CallError → GrantError
  not_recorded : CallError → GrantError
  revoke_skipped : List (GrantTarget × List Text) → GrantError

pub record PlannedGrant : Type 0 where
  pub target : GrantTarget
  pub plain : List Text
  pub grant_options : List Text
  pub added : PrivilegeGrant

unfoldable pub planned : PrivilegeGrant → List Text → List Text → PlannedGrant
planned d held grantable =
    let missing = subtract d.privileges held in
    let options = subtract d.grant_options grantable in
    record {
      target = d.target;
      plain = subtract missing options;
      grant_options = options;
      added = record { target = d.target; privileges = missing; grant_options = options };
    }

abbrev pub plan_of :
    PrivilegeGrant → Result CallError (List Text × List Text) → Result CallError PlannedGrant
plan_of d (ok (held, grantable)) = ok (planned d held grantable)
plan_of d (err e) = err e

pub record Plan : Type 0 where
  pub grants : List PlannedGrant
  pub errors : List GrantError

abbrev pub add_planned : Result CallError PlannedGrant → Plan → Plan
add_planned (ok p) plan = if empty p.added then plan else record plan { grants = p ∷ plan.grants }
add_planned (err e) plan = record plan { errors = call_failed e ∷ plan.errors }

-- What is recorded once the planned grants are made.
unfoldable pub intended : Ledger → List PlannedGrant → Ledger
intended m [] = m
intended m (p ∷ ps) =
    intended (put m (key p.target) (merge_grant (get m (key p.target)) p.added)) ps

pub record Applied : Type 0 where
  pub ledger : Ledger
  pub errors : List GrantError
  pub skipped : List (GrantTarget × List Text)

-- The update of `tracked` at one key.
abbrev pub keep : Ledger → Text → PrivilegeGrant → Ledger
keep m k g = if empty g then remove m k else put m k g

abbrev pub call_errors : List CallError → List GrantError
call_errors = map call_failed

abbrev pub option_error : Option CallError → List GrantError
option_error none = []
option_error (some e) = call_failed e ∷ []

abbrev pub skipped_error : List (GrantTarget × List Text) → List GrantError
skipped_error [] = []
skipped_error (s ∷ skipped) = revoke_skipped (s ∷ skipped) ∷ []

-- The number of entries that the declared and the tracked grants add up to.
abbrev pub total_entries : List PrivilegeGrant → List PrivilegeGrant → ℕ
total_entries desired managed = length (union (keys (tracked managed)) (keys (want desired)))

abbrev pub over_limit : List PrivilegeGrant → List PrivilegeGrant → ℕ → Bool
over_limit desired managed limit = ltb 0 limit && ltb limit (total_entries desired managed)

module _ (ops : Ops) where
  unfoldable pub plan_grants : List PrivilegeGrant → M Plan
  plan_grants [] = pure (record { grants = []; errors = [] })
  plan_grants (d ∷ ds) = do
    answer ← call_held ops d.target
    plan ← plan_grants ds
    pure (add_planned (plan_of d answer) plan)

  unfoldable pub grant_plain : PlannedGrant → M (List GrantError)
  grant_plain p =
      if is_empty p.plain
      then pure []
      else do e ← call_grant ops p.target p.plain false; pure (option_error e)

  -- After the GRANT with the grant option: an error skips the rest of this target.
  unfoldable pub after_options : PlannedGrant → Option CallError → M (List GrantError)
  unfolding grant_plain
  after_options p (some e) = pure (call_failed e ∷ [])
  after_options p none = grant_plain p

  unfoldable pub grant_one : PlannedGrant → M (List GrantError)
  unfolding after_options
  grant_one p =
      if is_empty p.grant_options
      then grant_plain p
      else do e ← call_grant ops p.target p.grant_options true; after_options p e

  unfoldable pub grant_all : List PlannedGrant → M (List GrantError)
  grant_all [] = pure []
  grant_all (p ∷ ps) = do errors ← grant_one p; later ← grant_all ps; pure (errors ++ later)

  -- The loop over the sorted keys.
  unfoldable pub revoke_all : Ledger → List Text → Ledger → M Applied
  revoke_all wanted [] m = pure (record { ledger = m; errors = []; skipped = [] })
  revoke_all wanted (k ∷ ks) m = do
    r ← revoke_removed ops (get m k) (get wanted k)
    a ← revoke_all wanted ks (keep m k r.left)
    pure (record {
      ledger = a.ledger;
      errors = call_errors r.errors ++ a.errors;
      skipped = r.skipped ++ a.skipped;
    })

  unfoldable pub finish :
      Ledger → Ledger → List GrantError → M (List PrivilegeGrant × List GrantError)
  finish wanted m errors = do
    a ← revoke_all wanted (sort (keys m)) m
    pure (sorted_grants a.ledger, errors ++ (a.errors ++ skipped_error a.skipped))

  -- After the intent was recorded, or not.
  unfoldable pub after_persist :
      List PrivilegeGrant
      → List PrivilegeGrant
      → Plan
      → List GrantError
      → Option CallError
      → M (List PrivilegeGrant × List GrantError)
  unfolding finish
  after_persist desired managed plan errors (some e) =
      pure (sorted_grants (tracked managed), errors ++ not_recorded e ∷ [])
  after_persist desired managed plan errors none = do
    failed ← grant_all plan.grants
    finish (want desired) (intended (tracked managed) plan.grants) (errors ++ failed)

  unfoldable pub record_and_grant :
      List PrivilegeGrant
      → List PrivilegeGrant
      → Plan
      → List GrantError
      → M (List PrivilegeGrant × List GrantError)
  unfolding after_persist
  record_and_grant desired managed plan errors =
      if is_empty plan.grants then finish (want desired) (tracked managed) errors else do
        e ← call_persist ops (sorted_grants (intended (tracked managed) plan.grants))
        after_persist desired managed plan errors e

  unfoldable pub apply_privilege_grants :
      List PrivilegeGrant → List PrivilegeGrant → ℕ → M (List PrivilegeGrant × List GrantError)
  unfolding record_and_grant
  apply_privilege_grants desired managed limit =
      let over = over_limit desired managed limit in
      let refused : List GrantError =
        if over then too_many_grants (total_entries desired managed) limit ∷ [] else [] in
      do
        plan ← plan_grants (if over then [] else desired)
        record_and_grant desired managed plan (refused ++ plan.errors)
