-- ===== src/Roles/Reassign.antt =====
-- Handing over what a deleted role owns, internal/controller/role_reassign.go, and the statements that
-- precede DROP ROLE. PostgreSQL is a parameter: each answer may be any function of what ran before.
use pgop.Prelude.{
  Bool, true, false, not, List, [], ◌∷◌, ◌++◌, ◌==◌, if◌then◌else◌, Option, none, some, Result, ok,
  err,
}
use pgop.Text.{Text, text_eq}
use pgop.Grants.Engine.{CallError}
use pgop.Roles.{RoleError, reserved_role_name}

-- What is done before and for the drop of a role. The revocation of parameter grants and that of
-- recorded object access are one act each.
pub data Act : Type 0 where
  revoke_parameters : Act
  revoke_database_privileges : Act
  connect_to : Text → Act
  revoke_schema_privileges : Text → Act
  revoke_extension_privileges : Text → Act
  revoke_recorded_objects : Act
  reassign_owned : Text → Text → Text → Act
  drop_role : Text → Act
  save_status : Act

pub data Entry : Type 0 where
  done tried : Act → Entry

-- The latest first.
abbrev pub Acts : Type 0
Acts = List Entry

-- `postgres.ReassignTargetInfo`
pub record ReassignTargetInfo : Type 0 where
  pub exists : Bool
  pub super : Bool
  pub old_has_usage : Bool

-- `postgres.DatabaseConns`: a database, and whether it accepts connections
pub record DatabaseConns : Type 0 where
  pub name : Text
  pub allow_conns : Bool

pub record DropServer : Type 0 where
  pub answer : Acts → Act → Option CallError
  pub reassign_target : Acts → Result CallError ReassignTargetInfo
  pub databases_owned : Acts → Result CallError (List Text)
  pub databases_with_owned_objects : Acts → Result CallError (List DatabaseConns)
  pub databases_with_privileges : Acts → Result CallError (List DatabaseConns)
  -- The databases where recorded object access could not be revoked.
  pub objects_skipped : Acts → Result CallError (List Text)
  -- Whether an error of DROP ROLE names objects that depend on the role.
  pub is_dependents : CallError → Bool

-- The log after an act that was answered.
abbrev pub logged : Act → Option CallError → Acts → Acts
logged act none log = done act ∷ log
logged act (some e) log = tried act ∷ log

pub data ReassignProblem : Type 0 where
  target_reserved : RoleError → ReassignProblem
  target_is_role : ReassignProblem
  target_missing : ReassignProblem
  target_superuser : ReassignProblem
  not_a_member : ReassignProblem
  owns_databases : List Text → ReassignProblem

abbrev pub reassign_problem :
    Text → Text → ReassignTargetInfo → Option RoleError → Option ReassignProblem
reassign_problem old target info (some e) = some (target_reserved e)
reassign_problem old target info none =
    if target == old
    then some target_is_role
    else if not info.exists
    then some target_missing
    else if info.super
    then some target_superuser
    else if not info.old_has_usage
    then some not_a_member
    else none

-- `checkReassignTarget`
unfoldable pub check_reassign_target : Text → Text → ReassignTargetInfo → Option ReassignProblem
unfolding reserved_role_name
check_reassign_target old target info = reassign_problem old target info (reserved_role_name target)

-- What was skipped, and what ran.
pub record Swept : Type 0 where
  pub skipped : List Text
  pub log : Acts

pub data Reassigned : Type 0 where
  swept : Swept → Reassigned
  blocked : ReassignProblem → Reassigned
  failed : CallError → Reassigned

module _ (server : DropServer) where
  abbrev pub after : Acts → Act → Acts
  after log act = logged act (server.answer log act) log

  abbrev pub unless_failed :
      Acts → (Acts → Acts × Option CallError) → Option CallError → Acts × Option CallError
  unless_failed log next (some e) = (log, some e)
  unless_failed log next none = next log

  -- An act whose error ends the work, or the rest.
  abbrev pub act_then : Act → Acts → (Acts → Acts × Option CallError) → Acts × Option CallError
  act_then act log next = unless_failed (after log act) next (server.answer log act)

  abbrev pub last_act : Act → Acts → Acts × Option CallError
  last_act act log = (after log act, server.answer log act)

  -- `reassignOwnedIn`
  unfoldable pub reassign_owned_in : Text → Text → Text → Acts → Acts × Option CallError
  reassign_owned_in old target db log =
      act_then (connect_to db) log (last_act (reassign_owned db old target))

  abbrev pub or_skipped : Text → Option CallError → List Text → List Text
  or_skipped db none skipped = skipped
  or_skipped db (some e) skipped = skipped ++ db ∷ []

  -- A loop over databases that skips those that accept no connection, or where the work fails.
  unfoldable pub sweep :
      (Text → Acts → Acts × Option CallError) → List DatabaseConns → List Text → Acts → Swept
  sweep work [] skipped log = record { skipped = skipped; log = log }
  sweep work (db ∷ dbs) skipped log = elim db.allow_conns [
    | false ↦ sweep work dbs (skipped ++ db.name ∷ []) log
    | true ↦ sweep work dbs (or_skipped db.name (work db.name log).1 skipped) (work db.name log).0
  ]

  abbrev pub reassign_everywhere :
      Text → Text → Acts → Result CallError (List DatabaseConns) → Reassigned
  reassign_everywhere old target log (err e) = failed e
  reassign_everywhere old target log (ok dbs) =
      swept (sweep (reassign_owned_in old target) dbs [] log)

  abbrev pub unless_owner : Text → Text → Acts → Result CallError (List Text) → Reassigned
  unless_owner old target log (err e) = failed e
  unless_owner old target log (ok (db ∷ dbs)) = blocked (owns_databases (db ∷ dbs))
  unless_owner old target log (ok []) =
      reassign_everywhere old target log (server.databases_with_owned_objects log)

  abbrev pub unless_refused : Text → Text → Acts → Option ReassignProblem → Reassigned
  unless_refused old target log (some p) = blocked p
  unless_refused old target log none = unless_owner old target log (server.databases_owned log)

  -- `reassignOwnedObjects`
  unfoldable pub reassign_owned_objects : Text → Text → Acts → Reassigned
  unfolding check_reassign_target sweep reassign_owned_in
  reassign_owned_objects old target log = elim (server.reassign_target log) [
    | err e ↦ failed e
    | ok info ↦ unless_refused old target log (check_reassign_target old target info)
  ]
