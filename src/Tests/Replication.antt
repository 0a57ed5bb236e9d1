-- ===== src/Tests/Replication.antt =====
-- Replication slots on concrete inputs.
use pgop.Prelude.{true, false, List, [], ◌∷◌, ◌≡◌, refl, All, none, some, contains}
use pgop.Text.{Text, text}
use pgop.Text.Strings.{cut_prefix}
use pgop.Text.Strconv.{format_int}
use pgop.Replication.{
  ReplicationSlot, drop, create, ReplicationServer, Wanted, reconcile_replication_slots,
}
use pgop.Replication.Volumes.{Pvc, done, cleanup_standby_volumes}
use pgop.Replication.Volumes.Removed.{IsRemoved, cleanup_standby_volumes-IsRemoved}
use pgop.Replication.Slots.{IsSafeCall, reconcile_replication_slots-IsSafe}

abbrev slot : Text → ReplicationSlot
slot name = record { name = name; physical = true; active = false; lost = false }

-- The slot of a standby that was removed, and one that is not pgop's.
abbrev slots : List ReplicationSlot
slots = slot (text "pgop_replica_2") ∷ slot (text "mine") ∷ []

abbrev wanted : Wanted
wanted = record { want = 2; pods = 0 ∷ 1 ∷ []; pvcs = 0 ∷ 1 ∷ []; allow_drops = true }

abbrev server : ReplicationServer
server = record { drop = λ log name. none; create = λ log name reserve. none }

-- The slot of the removed standby is dropped, that of the wanted one is created.
slots_sample :
    (reconcile_replication_slots server wanted slots).log
    ≡ create (text "pgop_replica_1") true ∷ drop (text "pgop_replica_2") ∷ []
unfolding reconcile_replication_slots contains format_int cut_prefix pgop.Text.text_beq
slots_sample = refl

reconcile_replication_slots_example :
    All (IsSafeCall wanted slots) (reconcile_replication_slots server wanted slots).log
reconcile_replication_slots_example = reconcile_replication_slots-IsSafe server wanted slots

abbrev pvc : Text → Pvc
pvc name = record { name = name; uid = text "u"; deleting = false }

-- The volume of a removed standby is deleted, that of the primary is kept.
volumes_sample :
    (cleanup_standby_volumes
      (λ log n. done)
      1
      (some 2)
      (text "db")
      []
      (pvc (text "data-db-0") ∷ pvc (text "data-db-2") ∷ [])).deleted
    ≡ pvc (text "data-db-2") ∷ []
unfolding cleanup_standby_volumes contains format_int cut_prefix pgop.Text.text_beq
volumes_sample = refl

cleanup_standby_volumes_example :
    All
      (IsRemoved 1 (some 2) (text "db") [] (pvc (text "data-db-2") ∷ []))
      (cleanup_standby_volumes
        (λ log n. done)
        1
        (some 2)
        (text "db")
        []
        (pvc (text "data-db-2") ∷ [])).deleted
cleanup_standby_volumes_example =
    cleanup_standby_volumes-IsRemoved (λ log n. done) 1 (some 2) (text "db") []
      (pvc (text "data-db-2") ∷ [])
