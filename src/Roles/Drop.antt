-- ===== src/Roles/Drop.antt =====
-- The drop of a deleted Role's PostgreSQL role: `dropPostgresRole` and `revokeSchemaPrivilegesIn` of
-- internal/controller/role_controller.go. The result is `finished` for an empty one, after which the
-- finalizer is removed, `later` for one that asks to be called again, or an error.
pub mod Safety
pub mod Order
use pgop.Prelude.{
  Bool, true, false, not, ◌&&◌, ◌||◌, List, [], ◌∷◌, ◌++◌, ◌==◌, is_empty, if◌then◌else◌, Option,
  none, some, Result, ok, err,
}
use pgop.Text.{Text, text_eq}
use pgop.Grants.Engine.{CallError}
use pgop.Policy.Ownership.{
  MarkerSigner, Ownership, owned_absent, owned, owned_remark, adoptable, not_owned,
  decide_ownership,
}
use pgop.Roles.{Role, RoleError, marker_kind_role, reserved_role_name, check_role_name}
use pgop.Roles.Takeover.{Cluster, OwnershipReads, role_recorded, load_marker_signer, SignerError}
use pgop.Roles.Reassign.{
  Act, revoke_parameters, revoke_database_privileges, connect_to, revoke_schema_privileges,
  revoke_extension_privileges, revoke_recorded_objects, drop_role, save_status, Acts, Swept,
  DatabaseConns, DropServer, ReassignProblem, Reassigned, swept, blocked, failed, logged, after,
  act_then, last_act, sweep, reassign_owned_objects,
}

-- Why the condition says that the role cannot be dropped yet.
pub data Blocking : Type 0 where
  reassign_refused : ReassignProblem → Blocking
  dependents_left : CallError → List Text → Blocking

pub data DropResult : Type 0 where
  finished : DropResult
  later : DropResult
  drop_error : CallError → DropResult

pub record Dropped : Type 0 where
  pub result : DropResult
  pub condition : Option Blocking
  pub log : Acts

abbrev nothing_done : DropResult → Dropped
nothing_done r = record { result = r; condition = none; log = [] }

abbrev pub stopped_at : CallError → Acts → Dropped
stopped_at e log = record { result = drop_error e; condition = none; log = log }

-- Without its key a signer verifies nothing.
abbrev pub signer_or_empty : Result SignerError MarkerSigner → MarkerSigner
signer_or_empty (ok s) = s
signer_or_empty (err e) = record { key = []; namespace = []; cluster = [] }

abbrev pub is_own : Ownership → Bool
is_own owned = true
is_own owned_remark = true
is_own _ = false

module _ (server : DropServer) where
  -- `revokeSchemaPrivilegesIn`
  unfoldable pub revoke_schema_privileges_in : Text → Acts → Acts × Option CallError
  revoke_schema_privileges_in db log = act_then server (connect_to db) log λ l.
      act_then server (revoke_schema_privileges db) l
        (last_act server (revoke_extension_privileges db))

  abbrev pub saved : Blocking → Acts → Option CallError → Dropped
  saved b log none = record { result = later; condition = some b; log = log }
  saved b log (some e) = record { result = drop_error e; condition = some b; log = log }

  -- The condition is set and the status saved.
  abbrev pub block : Blocking → Acts → Dropped
  block b log = saved b (after server log save_status) (server.answer log save_status)

  abbrev pub after_drop : List Text → Acts → Option CallError → Dropped
  after_drop skipped log none = record { result = finished; condition = none; log = log }
  after_drop skipped log (some e) =
      if server.is_dependents e then block (dependents_left e skipped) log else stopped_at e log

  unfoldable pub run_drop : Text → List Text → Acts → Dropped
  run_drop name skipped log =
      after_drop skipped (after server log (drop_role name)) (server.answer log (drop_role name))

  abbrev pub after_reassign : Text → List Text → Acts → Reassigned → Dropped
  after_reassign name skipped log (failed e) = stopped_at e log
  after_reassign name skipped log (blocked p) = block (reassign_refused p) log
  after_reassign name skipped log (swept s) = run_drop name (skipped ++ s.skipped) s.log

  -- spec.deletion.reassignOwnedTo, if it is set and not empty
  unfoldable pub reassign_and_drop : Text → Option Text → List Text → Acts → Dropped
  unfolding run_drop reassign_owned_objects
  reassign_and_drop name none skipped log = run_drop name skipped log
  reassign_and_drop name (some target) skipped log =
      if is_empty target
      then run_drop name skipped log
      else after_reassign name skipped log (reassign_owned_objects server name target log)

  abbrev pub after_objects : Text → Option Text → Swept → Result CallError (List Text) → Dropped
  after_objects name target s (err e) = stopped_at e (logged revoke_recorded_objects (some e) s.log)
  after_objects name target s (ok skipped) =
      reassign_and_drop name target (s.skipped ++ skipped)
        (logged revoke_recorded_objects none s.log)

  abbrev pub after_databases :
      Text → Option Text → Acts → Result CallError (List DatabaseConns) → Dropped
  after_databases name target log (err e) = stopped_at e log
  after_databases name target log (ok dbs) =
      let s = sweep server revoke_schema_privileges_in dbs [] log in
      after_objects name target s (server.objects_skipped s.log)

  abbrev pub after_database_privileges : Text → Option Text → Acts → Option CallError → Dropped
  after_database_privileges name target log (some e) = stopped_at e log
  after_database_privileges name target log none =
      after_databases name target log (server.databases_with_privileges log)

  abbrev pub after_parameters : Text → Option Text → Acts → Option CallError → Dropped
  after_parameters name target log (some e) = stopped_at e log
  after_parameters name target log none =
      after_database_privileges name target (after server log revoke_database_privileges)
        (server.answer log revoke_database_privileges)

  -- What is done once the role is known to be the Role's.
  unfoldable pub revoke_and_drop : Text → Option Text → Dropped
  unfolding sweep revoke_schema_privileges_in reassign_and_drop
  revoke_and_drop name target =
      after_parameters name target (after server [] revoke_parameters)
        (server.answer [] revoke_parameters)

  module _ (key_id : Text → Text) (mac : Text → Text → Text) (reads : OwnershipReads) (role : Role)
      (cluster : Cluster) (target : Option Text) where
    -- The Role's own role, by its comment.
    abbrev pub is_mine : Text → Bool
    is_mine comment = is_own (
        decide_ownership key_id mac (signer_or_empty (load_marker_signer reads cluster))
          marker_kind_role role.name true comment true false)

    abbrev pub after_comment : Text → Result CallError (Bool × Text) → Dropped
    after_comment name (err e) = nothing_done (drop_error e)
    after_comment name (ok (false, comment)) = nothing_done finished
    after_comment name (ok (true, comment)) =
        if is_mine comment then revoke_and_drop name target else nothing_done finished

    abbrev pub after_role_name : Text → Option RoleError → Dropped
    after_role_name name (some e) = nothing_done finished
    after_role_name name none = after_comment name (reads.role_comment name)

    abbrev pub after_reserved : Text → Option RoleError → Dropped
    after_reserved name (some e) = nothing_done finished
    after_reserved name none = after_role_name name (check_role_name reads.roles role name)

    abbrev pub after_recorded : Text → Result CallError Bool → Dropped
    after_recorded name (err e) = nothing_done (drop_error e)
    after_recorded name (ok recorded) =
        if is_empty name || not recorded
        then nothing_done finished
        else after_reserved name (reserved_role_name name)

    -- `dropPostgresRole`, with the outcome of the connection
    unfoldable pub drop_postgres_role : Option CallError → Dropped
    unfolding role_recorded revoke_and_drop load_marker_signer check_role_name
    drop_postgres_role (some e) = nothing_done (drop_error e)
    drop_postgres_role none =
        after_recorded role.status_role_name
          (role_recorded reads role cluster role.status_role_name)
