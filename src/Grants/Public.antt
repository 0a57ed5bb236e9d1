-- ===== src/Grants/Public.antt =====
-- What PUBLIC may do by default, and what pgop took from it: `reconcilePublicPrivileges` of
-- internal/controller/database_grants.go. PostgreSQL and the status write are parameters: each answer
-- may be any function of what ran before. `save` is always given, as the controller gives it.
pub mod Safety
pub mod Accounted
use pgop.Prelude.{
  Bool, true, false, not, ◌&&◌, ◌||◌, List, [], ◌∷◌, ◌++◌, ◌==◌, contains, any, if◌then◌else◌,
  Option, none, some, Result, ok, err,
}
use pgop.Text.{Text, text_eq, text}
use pgop.Grants.Engine.{CallError}
use pgop.Grants.Database.{DatabaseGrantSpec}
use pgop.Policy.Roles.{is_public}
use pgop.Settings.{forget}
use pgop.Sql.Privileges.{SqlError, normalize_database_privileges, normalize_schema_privileges}

-- `publicPrivilegeItems`: each with its field of the spec, kind of object and privilege
pub data Item : Type 0 where
  connect temporary schema_usage schema_create : Item

abbrev pub items : List Item
items = connect ∷ temporary ∷ schema_usage ∷ schema_create ∷ []

abbrev pub field : Item → Text
field connect = text "connect"
field temporary = text "temporary"
field schema_usage = text "publicSchemaUsage"
field schema_create = text "publicSchemaCreate"

abbrev pub on_schema : Item → Bool
on_schema connect = false
on_schema temporary = false
on_schema schema_usage = true
on_schema schema_create = true

abbrev pub privilege : Item → Text
privilege connect = text "CONNECT"
privilege temporary = text "TEMPORARY"
privilege schema_usage = text "USAGE"
privilege schema_create = text "CREATE"

-- `PublicPrivilegesSpec`
pub record PublicPrivilegesSpec : Type 0 where
  pub connect : Option Bool
  pub temporary : Option Bool
  pub schema_usage : Option Bool
  pub schema_create : Option Bool

abbrev pub requested : Item → PublicPrivilegesSpec → Option Bool
requested Item.connect spec = spec.connect
requested Item.temporary spec = spec.temporary
requested Item.schema_usage spec = spec.schema_usage
requested Item.schema_create spec = spec.schema_create

abbrev is_false : Option Bool → Bool
is_false none = false
is_false (some b) = not b

-- `revokeRequested`
unfoldable pub revoke_requested : Option PublicPrivilegesSpec → Item → Bool
revoke_requested none it = false
revoke_requested (some spec) it = is_false (requested it spec)

-- What the spec of a Database says of PUBLIC: its grants and those of its schemas.
pub record PublicSpec : Type 0 where
  pub public_privileges : Option PublicPrivilegesSpec
  pub grants : List DatabaseGrantSpec
  pub schemas : List (Text × List DatabaseGrantSpec)

abbrev pub has_privilege : Text → Result SqlError (List Text) → Bool
has_privilege p (ok privs) = contains privs p
has_privilege p (err e) = false

abbrev pub public_schema_name : Text
public_schema_name = text "public"

-- `publicGrantConflict`
unfoldable pub public_grant_conflict : PublicSpec → Item → Bool
unfolding is_public
public_grant_conflict spec it =
    if not (on_schema it)
    then any
        (λ (g : DatabaseGrantSpec).
          is_public g.role
          && has_privilege (privilege it) (normalize_database_privileges g.privileges))
        spec.grants
    else any
        (λ (s : Text × List DatabaseGrantSpec).
          s.0 == public_schema_name
          && any
              (λ (g : DatabaseGrantSpec).
                is_public g.role
                && has_privilege (privilege it) (normalize_schema_privileges g.privileges))
              s.1)
        spec.schemas

pub data Event : Type 0 where
  saved save_failed : List Text → Event
  revoked revoke_failed : Item → Event
  granted grant_failed : Item → Event

-- The latest first.
abbrev pub Events : Type 0
Events = List Event

-- `held` is what PUBLIC holds of the object from its owner, if the object exists.
pub record PublicServer : Type 0 where
  pub held : Events → Result CallError (Option (List Text))
  pub save : Events → List Text → Option CallError
  pub revoke : Events → Item → Option CallError
  pub grant : Events → Item → Option CallError
  pub held_from_any_grantor : Events → Item → Result CallError Bool

-- The maps and lists of the loop. `cache` is what was read of the one object of the kind.
pub record PublicState : Type 0 where
  pub recorded : List Text
  pub cache : Option (Option (List Text))
  pub conflicts : List Item
  pub still_held : List Item
  pub errors : List CallError
  pub log : Events

-- `record`: the fields that are recorded, in the order of the items
unfoldable pub record_among : List Text → List Item → List Text
record_among recorded [] = []
record_among recorded (it ∷ its) =
    let rest = record_among recorded its in
    if contains recorded (field it) then field it ∷ rest else rest

abbrev pub record_of : List Text → List Text
record_of recorded = record_among recorded items

abbrev pub with_error : CallError → PublicState → PublicState
with_error e st = record st { errors = st.errors ++ e ∷ [] }

-- What is done for an item, or the error that ends the loop.
abbrev pub Step : Type 0
Step = PublicState × Option CallError

module _ (server : PublicServer) (spec : PublicSpec) where
  abbrev pub still : Item → PublicState → Result CallError Bool → PublicState
  still it st (err e) = with_error e st
  still it st (ok true) = record st { still_held = st.still_held ++ it ∷ [] }
  still it st (ok false) = st

  -- Whether PUBLIC still holds the privilege from another grantor.
  unfoldable pub check_still : Item → PublicState → PublicState
  check_still it st = still it st (server.held_from_any_grantor st.log it)

  abbrev pub after_revoke : Item → PublicState → Option CallError → PublicState
  after_revoke it st (some e) = with_error e (record st { log = revoke_failed it ∷ st.log })
  after_revoke it st none = check_still it (record st { log = revoked it ∷ st.log })

  unfoldable pub run_revoke : Item → PublicState → PublicState
  unfolding check_still
  run_revoke it st = after_revoke it st (server.revoke st.log it)

  abbrev pub after_save : Item → PublicState → Option CallError → PublicState
  after_save it st (some e) = with_error e (record st {
    recorded = forget st.recorded (field it);
    log = save_failed (record_of st.recorded) ∷ st.log;
  })
  after_save it st none = run_revoke it (record st { log = saved (record_of st.recorded) ∷ st.log })

  abbrev pub save_then : Item → PublicState → PublicState
  save_then it st = after_save it st (server.save st.log (record_of st.recorded))

  -- PUBLIC holds what the spec asks to revoke: it is recorded before it is revoked.
  unfoldable pub record_and_revoke : Item → PublicState → PublicState
  unfolding run_revoke
  record_and_revoke it st =
      if contains st.recorded (field it)
      then run_revoke it st
      else save_then it (record st { recorded = field it ∷ st.recorded })

  abbrev pub after_grant : Item → PublicState → Option CallError → PublicState
  after_grant it st (some e) = with_error e (record st { log = grant_failed it ∷ st.log })
  after_grant it st none = record st {
    recorded = forget st.recorded (field it);
    log = granted it ∷ st.log;
  }

  -- What was taken is granted back, unless PUBLIC holds it again.
  unfoldable pub grant_back : Item → Bool → PublicState → PublicState
  grant_back it true st = record st { recorded = forget st.recorded (field it) }
  grant_back it false st = after_grant it st (server.grant st.log it)

  unfoldable pub act : Item → Bool → Bool → PublicState → PublicState
  unfolding record_and_revoke grant_back check_still
  act it true true st = record_and_revoke it st
  act it true false st = check_still it st
  act it false holds st = grant_back it holds st

  -- Once it is known what PUBLIC holds of the object: nothing, if it is gone.
  unfoldable pub on_held : Item → Bool → PublicState → Option (List Text) → PublicState
  unfolding act
  on_held it true st none = st
  on_held it false st none = record st { recorded = forget st.recorded (field it) }
  on_held it want st (some privs) = act it want (contains privs (privilege it)) st

  abbrev pub first_read : Item → Bool → PublicState → Result CallError (Option (List Text)) → Step
  first_read it want st (err e) = (st, some e)
  first_read it want st (ok h) = (on_held it want (record st { cache = some h }) h, none)

  -- `publicHolds`, which reads once, and what follows.
  unfoldable pub with_held : Item → Bool → PublicState → Option (Option (List Text)) → Step
  unfolding on_held
  with_held it want st (some h) = (on_held it want st h, none)
  with_held it want st none = first_read it want st (server.held st.log)

  -- The body of the loop.
  unfoldable pub item_step : Item → PublicState → Step
  unfolding with_held revoke_requested public_grant_conflict
  item_step it st =
      let want = revoke_requested spec.public_privileges it in
      if want && public_grant_conflict spec it
      then (record st { conflicts = st.conflicts ++ it ∷ [] }, none)
      else if not want && not (contains st.recorded (field it))
      then (st, none)
      else with_held it want st st.cache

  abbrev pub is_of_kind : Bool → Item → Bool
  is_of_kind true it = on_schema it
  is_of_kind false it = not (on_schema it)

  abbrev pub unless_stopped : (PublicState → Step) → Step → Step
  unless_stopped next (st, some e) = (st, some e)
  unless_stopped next (st, none) = next st

  -- The loop over the items of the kind.
  unfoldable pub run_items : Bool → List Item → PublicState → Step
  unfolding item_step
  run_items schema [] st = (st, none)
  run_items schema (it ∷ its) st =
      let rest = run_items schema its st in
      if is_of_kind schema it then unless_stopped (run_items schema its) (item_step it st) else rest

abbrev pub first_state : List Text → PublicState
first_state recorded = record {
  recorded = recorded;
  cache = none;
  conflicts = [];
  still_held = [];
  errors = [];
  log = [];
}

-- The status afterwards, what is reported, and what ran.
pub record PublicRun : Type 0 where
  pub status : List Text
  pub conflicts : List Item
  pub still_held : List Item
  pub errors : List CallError
  pub log : Events

-- An error that ends the loop is the only one that is returned.
abbrev pub run_of : Step → PublicRun
run_of (st, some e) = record {
  status = record_of st.recorded;
  conflicts = [];
  still_held = [];
  errors = e ∷ [];
  log = st.log;
}
run_of (st, none) = record {
  status = record_of st.recorded;
  conflicts = st.conflicts;
  still_held = st.still_held;
  errors = st.errors;
  log = st.log;
}

-- `reconcilePublicPrivileges`, of the items of schemas or of databases
unfoldable pub reconcile_public_privileges :
    PublicServer → PublicSpec → Bool → List Text → PublicRun
unfolding run_items
reconcile_public_privileges server spec schema recorded =
    run_of (run_items server spec schema items (first_state recorded))
