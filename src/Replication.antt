-- ===== src/Replication.antt =====
-- Replication slots of the standbys, internal/controller/replication.go: ordinals, and the slots that are
-- dropped and created. PostgreSQL's answers are a function of the calls made before; events are left out.
pub mod Slots
pub mod Volumes
use pgop.Prelude.{
  ℕ, ◌+◌, ◌-◌, ◌*◌, Bool, true, false, not, ◌&&◌, ◌||◌, List, [], ◌∷◌, ◌++◌, ◌==◌, nat_eq, ltb, leb,
  if◌then◌else◌, contains, Option, none, some, Result, ok, err, is_empty,
}
use pgop.Text.{Text, text_eq, text}
use pgop.Text.Strings.{cut_prefix}
use pgop.Text.Strconv.{format_int}
use pgop.Grants.Engine.{CallError}

abbrev pub replication_slot_prefix : Text
replication_slot_prefix = text "pgop_replica_"

-- The largest int.
abbrev pub max_int : ℕ
max_int = 0x7FFFFFFFFFFFFFFF

-- The value of a text of digits.
unfoldable pub digits_value : ℕ → Text → Option ℕ
digits_value n [] = some n
digits_value n (c ∷ cs) =
    let rest = digits_value (10 * n + (c - b'0')) cs in
    if leb b'0' c && leb c b'9' then rest else none

-- strconv.Atoi where its text is that of a number of at least 0: a sign is never in it.
abbrev pub canonical : Text → Option ℕ → Option ℕ
canonical rest none = none
canonical rest (some n) = if leb n max_int && format_int n == rest then some n else none

unfoldable pub ordinal_of : Option Text → Option ℕ
unfolding digits_value
ordinal_of none = none
ordinal_of (some rest) = if is_empty rest then none else canonical rest (digits_value 0 rest)

-- `parseOrdinal`
unfoldable pub parse_ordinal : Text → Text → Option ℕ
unfolding ordinal_of cut_prefix
parse_ordinal name prefix = ordinal_of (cut_prefix name prefix)

unfoldable pub replication_slot_name : ℕ → Text
replication_slot_name ordinal = replication_slot_prefix ++ format_int ordinal

unfoldable pub slot_ordinal : Text → Option ℕ
unfolding parse_ordinal
slot_ordinal slot = parse_ordinal slot replication_slot_prefix

-- postgres.ReplicationSlot; `lost` is the WAL status "lost".
pub record ReplicationSlot : Type 0 where
  pub name : Text
  pub physical : Bool
  pub active : Bool
  pub lost : Bool

pub data Call : Type 0 where
  drop : Text → Call
  create : Text → Bool → Call

abbrev pub Log : Type 0
Log = List Call

-- The calls of `ReplicationServer` that change slots.
pub record ReplicationServer : Type 0 where
  pub drop : Log → Text → Option CallError
  pub create : Log → Text → Bool → Option CallError

-- The number of instances wanted, the ordinals whose pod exists, those whose data PVC is kept, and
-- whether slots may be dropped.
pub record Wanted : Type 0 where
  pub want : ℕ
  pub pods : List ℕ
  pub pvcs : List ℕ
  pub allow_drops : Bool

-- What the loop over the slots has found, the calls, and the error that ended it.
pub record SlotScan : Type 0 where
  pub existing : List Text
  pub lost : List Text
  pub recreated : List ℕ
  pub log : Log
  pub error : Option CallError

abbrev pub keep_slot : Text → SlotScan → SlotScan
keep_slot name s = record s { existing = name ∷ s.existing }

module _ (srv : ReplicationServer) (w : Wanted) where
  -- A slot of a standby that was removed.
  unfoldable pub drop_removed : Text → SlotScan → Option CallError → SlotScan
  drop_removed name s (some e) = record s {
    recreated = [];
    error = some e;
    log = drop name ∷ s.log;
  }
  drop_removed name s none = record s { log = drop name ∷ s.log }

  -- An invalidated slot.
  unfoldable pub drop_lost : Text → ℕ → SlotScan → Option CallError → SlotScan
  drop_lost name ordinal s (some e) = record s {
    recreated = [];
    error = some e;
    log = drop name ∷ s.log;
  }
  drop_lost name ordinal s none = record s {
    log = drop name ∷ s.log;
    recreated = s.recreated ++ ordinal ∷ [];
    lost = name ∷ s.lost;
  }

  unfoldable pub scan_standby : ReplicationSlot → ℕ → SlotScan → SlotScan
  unfolding drop_removed drop_lost contains
  scan_standby slot ordinal s =
      if leb w.want ordinal
      then if not w.allow_drops || slot.active || contains w.pvcs ordinal
        then keep_slot slot.name s
        else drop_removed slot.name s (srv.drop s.log slot.name)
      else if slot.lost && not slot.active
      then drop_lost slot.name ordinal s (srv.drop s.log slot.name)
      else keep_slot slot.name s

  unfoldable pub scan_slot : ReplicationSlot → Option ℕ → SlotScan → SlotScan
  unfolding scan_standby
  scan_slot slot none s = keep_slot slot.name s
  scan_slot slot (some ordinal) s =
      if not slot.physical || ordinal == 0
      then keep_slot slot.name s
      else scan_standby slot ordinal s

  abbrev pub unless_failed : SlotScan → Option CallError → SlotScan → SlotScan
  unless_failed s (some e) next = s
  unless_failed s none next = next

  -- The loop over the slots; an error ends it.
  unfoldable pub scan_slots : List ReplicationSlot → SlotScan → SlotScan
  unfolding scan_slot slot_ordinal
  scan_slots [] s = s
  scan_slots (slot ∷ slots) s =
      unless_failed s s.error (scan_slots slots (scan_slot slot (slot_ordinal slot.name) s))

  unfoldable pub create_slot : Text → SlotScan → Option CallError → SlotScan
  unfolding contains
  create_slot name s e = record s {
    log = create name (not (contains s.lost name)) ∷ s.log;
    error = e;
  }

  -- The loop over the ordinals from `i`, of which there are `n`.
  unfoldable pub create_slots : ℕ → ℕ → SlotScan → SlotScan
  unfolding create_slot replication_slot_name
  create_slots i ℕ.zero s = s
  create_slots i (ℕ.suc n) s =
      let name = replication_slot_name i in
      unless_failed s s.error (
        create_slots (i + 1) n (
          if not (contains s.existing name) && contains w.pods i
          then create_slot name s (srv.create s.log name (not (contains s.lost name)))
          else s))

  -- `reconcileReplicationSlots`, of the slots that the server lists.
  unfoldable pub reconcile_replication_slots : List ReplicationSlot → SlotScan
  unfolding scan_slots create_slots
  reconcile_replication_slots slots = create_slots 1 (w.want - 1) (
      scan_slots slots
        (record { existing = []; lost = []; recreated = []; log = []; error = none }))
