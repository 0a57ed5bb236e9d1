-- ===== src/Tests/Takeover.antt =====
-- A Role that is recorded for a role without a comment, which it marks and, when it is deleted, drops.
use pgop.Prelude.{Bool, true, false, [], ◌∷◌, ◌≡◌, ◌≤◌, ◌⊎◌, refl, length, none, some, ok}
use pgop.Text.{Text, text}
use pgop.Policy.Ownership.{MarkerSigner, marker}
use pgop.Roles.{Role, marker_kind_role}
use pgop.Roles.Takeover.{Cluster, OwnershipReads, Decision, marker_key_size, role_ownership}
use pgop.Roles.Takeover.Safety.{IsRecorded, IsAuthorized, role_ownership-IsAuthorized}
use pgop.Roles.Reassign.{
  DropServer, done, revoke_parameters, revoke_database_privileges, connect_to, reassign_owned,
  revoke_recorded_objects, drop_role,
}
use pgop.Roles.Drop.{Dropped, drop_postgres_role}
use pgop.Roles.Drop.Order.{IsSafeDrop, drop_postgres_role-IsSafeDrop}

abbrev app : Text
app = text "app"

abbrev key : Text
key = text "0123456789abcdef0123456789abcdef"

abbrev key_id : Text → Text
key_id k = text "id"

abbrev mac : Text → Text → Text
mac k t = t

abbrev role : Role
role = record {
  uid = text "1";
  name = app;
  created = 7;
  cluster = text "main";
  role_name = [];
  status_role_name = app;
  status_cluster_uid = text "u";
}

abbrev cluster : Cluster
cluster = record { name = text "main"; namespace = text "default"; uid = text "u"; policy = none }

abbrev reads : OwnershipReads
reads = record {
  credentials = λ n. ok none;
  marker_key = λ n. ok (some key);
  role_comment = λ n. ok (true, []);
  membership_closure = λ n. ok [];
  roles = ok (role ∷ []);
}

abbrev signer : MarkerSigner
signer = record { key = key; namespace = text "default"; cluster = text "main" }

abbrev decision : Decision
decision = (marker key_id mac signer marker_kind_role app, false)

goes_ahead : role_ownership key_id mac reads cluster role app ≡ ok (signer, decision)
unfolding role_ownership pgop.Text.text_beq pgop.Policy.Ownership.decide_ownership
    pgop.Policy.Ownership.verify marker pgop.Policy.Ownership.refreshable_comment
goes_ahead = refl

role_ownership-IsAuthorized_example :
    (recorded : Bool) × (found : Bool × Text) × (marker_key_size ≤ length signer.key)
    × ((recorded ≡ false) ⊎ IsRecorded reads role cluster app)
    × (reads.role_comment app ≡ ok found)
    × IsAuthorized key_id mac reads role cluster app signer recorded found decision
role_ownership-IsAuthorized_example =
    role_ownership-IsAuthorized key_id mac reads cluster role app signer decision goes_ahead

-- One database has objects of the role, which its successor gets.
abbrev server : DropServer
server = record {
  answer = λ log act. none;
  reassign_target = λ log. ok (record { exists = true; super = false; old_has_usage = true });
  databases_owned = λ log. ok [];
  databases_with_owned_objects = λ log. ok (record { name = text "db"; allow_conns = true } ∷ []);
  databases_with_privileges = λ log. ok [];
  objects_skipped = λ log. ok [];
  is_dependents = λ e. false;
}

abbrev dropped : Dropped
dropped = drop_postgres_role server key_id mac reads role cluster (some (text "heir")) none

acts_in_order :
    dropped.log
    ≡ done (drop_role app)
      ∷ done (reassign_owned (text "db") app (text "heir"))
      ∷ done (connect_to (text "db"))
      ∷ done revoke_recorded_objects
      ∷ done revoke_database_privileges
      ∷ done revoke_parameters
      ∷ []
unfolding drop_postgres_role pgop.Text.text_beq pgop.Policy.Ownership.decide_ownership
    pgop.Policy.Ownership.verify marker pgop.Policy.Ownership.refreshable_comment
acts_in_order = refl

drop_postgres_role-IsSafeDrop_example :
    IsSafeDrop key_id mac reads server role cluster (some (text "heir")) dropped
drop_postgres_role-IsSafeDrop_example =
    drop_postgres_role-IsSafeDrop key_id mac reads server role cluster (some (text "heir")) none
