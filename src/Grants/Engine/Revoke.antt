-- ===== src/Grants/Engine/Revoke.antt =====
-- `revokeRemoved` and `revokeEach` of internal/controller/privilege_grants.go.
pub mod Safety
use pgop.Prelude.{
  Bool, true, false, ◌&&◌, List, [], ◌∷◌, ◌++◌, Option, none, some, Result, ok, err, if◌then◌else◌,
  is_empty,
}
use pgop.Text.{Text}
use pgop.Grants.Sets.{subtract, intersect}
use pgop.Grants.Target.{GrantTarget, PrivilegeGrant, nothing_on}
use pgop.Grants.Engine.{
  CallError, dependent, RevokeMode, Ops, M, ◌>>=◌, pure, call_revoke, call_gone,
}

abbrev pub plain_mode : RevokeMode
plain_mode = record { grant_option_only = false; cascade = false }

abbrev pub cascade_mode : RevokeMode
cascade_mode = record { grant_option_only = false; cascade = true }

abbrev pub option_mode : RevokeMode
option_mode = record { grant_option_only = true; cascade = true }

-- What is left of an entry, the errors on the way, and the privileges that PostgreSQL refused to
-- revoke because of dependent privileges.
pub record Revoked : Type 0 where
  pub left : PrivilegeGrant
  pub errors : List CallError
  pub skipped : List (GrantTarget × List Text)

abbrev pub unchanged : PrivilegeGrant → Revoked
unchanged m = record { left = m; errors = []; skipped = [] }

abbrev pub fail : Revoked → CallError → Revoked
fail r e = record r { errors = r.errors ++ e ∷ [] }

abbrev pub drop_privileges : PrivilegeGrant → List Text → PrivilegeGrant
drop_privileges m ps = record m { privileges = subtract m.privileges ps }

abbrev pub drop_options : PrivilegeGrant → List Text → PrivilegeGrant
drop_options m ps = record m { grant_options = subtract m.grant_options ps }

-- What `revokeEach` returns: the privileges revoked, the ones refused, and the other errors.
pub record Each : Type 0 where
  pub done : List Text
  pub blocked : List Text
  pub errors : List CallError

abbrev pub count_revoke : Text → Option CallError → Each → Each
count_revoke p none each = record each { done = p ∷ each.done }
count_revoke p (some e) each =
    if dependent e
    then record each { blocked = p ∷ each.blocked }
    else record each { errors = e ∷ each.errors }

module _ (ops : Ops) where
  unfoldable pub revoke_each : GrantTarget → List Text → M Each
  revoke_each t [] = pure (record { done = []; blocked = []; errors = [] })
  revoke_each t (p ∷ ps) = do
    e ← call_revoke ops t (p ∷ []) plain_mode
    each ← revoke_each t ps
    pure (count_revoke p e each)

  abbrev pub drop_option_only : Revoked → List Text → Option CallError → Revoked
  drop_option_only r ps none = record r { left = drop_options r.left ps }
  drop_option_only r ps (some e) = fail r e

  abbrev pub drop_with_option : Revoked → List Text → Option CallError → Revoked
  drop_with_option r ps none = record r { left = drop_options (drop_privileges r.left ps) ps }
  drop_with_option r ps (some e) = fail r e

  -- The grant options that are no longer declared, where the privilege itself stays.
  unfoldable pub revoke_options : List Text → Revoked → M Revoked
  revoke_options ps r =
      if is_empty ps
      then pure r
      else do e ← call_revoke ops r.left.target ps option_mode; pure (drop_option_only r ps e)

  -- The privileges that were granted with the grant option.
  unfoldable pub revoke_with_option : List Text → Revoked → M Revoked
  revoke_with_option ps r =
      if is_empty ps
      then pure r
      else do e ← call_revoke ops r.left.target ps cascade_mode; pure (drop_with_option r ps e)

  abbrev pub count_each : Revoked → Each → Revoked
  count_each r each = record {
    left = drop_privileges (drop_privileges r.left each.done) each.blocked;
    errors = r.errors ++ each.errors;
    skipped =
        if is_empty each.blocked
        then r.skipped
        else r.skipped ++ (r.left.target, each.blocked) ∷ [];
  }

  -- The answer to the plain REVOKE of all of `ps`.
  unfoldable pub after_plain : List Text → Revoked → Option CallError → M Revoked
  after_plain ps r none = pure (record r { left = drop_privileges r.left ps })
  after_plain ps r (some e) =
      if dependent e
      then (do each ← revoke_each r.left.target ps; pure (count_each r each))
      else pure (fail r e)

  unfoldable pub revoke_plain : List Text → Revoked → M Revoked
  unfolding after_plain
  revoke_plain ps r =
      if is_empty ps
      then pure r
      else do e ← call_revoke ops r.left.target ps plain_mode; after_plain ps r e

  -- The switch on the check of `ops.gone`.
  unfoldable pub revoke_from :
      PrivilegeGrant → List Text → List Text → Result CallError Bool → M Revoked
  revoke_from m removed options_only (err e) = pure (fail (unchanged m) e)
  revoke_from m removed options_only (ok true) = pure (unchanged (nothing_on m.target))
  revoke_from m removed options_only (ok false) = do
    r ← revoke_options options_only (unchanged m)
    s ← revoke_with_option (intersect removed r.left.grant_options) r
    revoke_plain (subtract removed (intersect removed r.left.grant_options)) s

  unfoldable pub revoke_removed : PrivilegeGrant → PrivilegeGrant → M Revoked
  revoke_removed m d =
      let removed = subtract m.privileges d.privileges in
      let options_only = subtract (subtract m.grant_options d.grant_options) removed in
      if is_empty removed && is_empty options_only
      then pure (unchanged m)
      else do answer ← call_gone ops m.target; revoke_from m removed options_only answer
