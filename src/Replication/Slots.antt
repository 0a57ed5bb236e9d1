-- ===== src/Replication/Slots.antt =====
-- Which slots are dropped and created.
use pgop.Prelude.{
  ℕ, ◌+◌, ◌-◌, ◌≤◌, ◌<◌, true, false, not, ◌&&◌, ◌||◌, List, [], ◌∷◌, ◌==◌, nat_eq, leb, ◌≡◌, ◌⊎◌,
  inl, inr, refl, if◌then◌else◌, contains, Option, none, some, All, arith, Bool-cases,
}
use pgop.Text.{Text, text_eq}
use pgop.Grants.Engine.{CallError}
use pgop.Replication.{
  replication_slot_name, slot_ordinal, ReplicationSlot, Call, drop, create, ReplicationServer,
  Wanted, SlotScan, drop_removed, drop_lost, scan_standby, scan_slot, unless_failed, scan_slots,
  create_slot, create_slots, reconcile_replication_slots,
}

abbrev pub Among : ReplicationSlot → List ReplicationSlot → Type 0
Among r [] = ⊥
Among r (x ∷ xs) = (r ≡ x) ⊎ Among r xs

-- A slot that may be dropped: a physical one of a standby that is not in use, and either that standby is
-- not wanted, its volume is gone and drops are allowed, or its WAL is lost.
abbrev pub IsDroppable : Wanted → ReplicationSlot → Type 0
IsDroppable w slot =
    (ordinal : ℕ) × (slot_ordinal slot.name ≡ some ordinal)
    × (1 ≤ ordinal)
    × (slot.physical ≡ true)
    × (slot.active ≡ false)
    × (((w.want ≤ ordinal) × (w.allow_drops ≡ true) × (contains w.pvcs ordinal ≡ false))
        ⊎ (slot.lost ≡ true))

-- What the calls may be: drops of such slots, and the creation of the slots of standbys that are wanted
-- and have a pod.
abbrev pub IsSafeCall : Wanted → List ReplicationSlot → Call → Type 0
IsSafeCall w slots (drop name) =
    (slot : ReplicationSlot) × Among slot slots × (slot.name ≡ name) × IsDroppable w slot
IsSafeCall w slots (create name reserve) =
    (i : ℕ) × (1 ≤ i) × (i < w.want) × (contains w.pods i ≡ true) × (name ≡ replication_slot_name i)

module _ (srv : ReplicationServer) (w : Wanted) (all : List ReplicationSlot) where
  abbrev IsSafe : SlotScan → Type 0
  IsSafe s = All (IsSafeCall w all) s.log

  drop_removed-IsSafe :
      (name : Text) (s : SlotScan) (e : Option CallError)
      → IsSafeCall w all (drop name)
      → IsSafe s
      → IsSafe (drop_removed srv w name s e)
  unfolding drop_removed
  drop_removed-IsSafe name s (some e) c h = (c, h)
  drop_removed-IsSafe name s none c h = (c, h)

  drop_lost-IsSafe :
      (name : Text) (ordinal : ℕ) (s : SlotScan) (e : Option CallError)
      → IsSafeCall w all (drop name)
      → IsSafe s
      → IsSafe (drop_lost srv w name ordinal s e)
  unfolding drop_lost
  drop_lost-IsSafe name ordinal s (some e) c h = (c, h)
  drop_lost-IsSafe name ordinal s none c h = (c, h)

  scan_standby-IsSafe :
      (slot : ReplicationSlot) (ordinal : ℕ) (s : SlotScan)
      → Among slot all
      → slot_ordinal slot.name ≡ some ordinal
      → 1 ≤ ordinal
      → slot.physical ≡ true
      → IsSafe s
      → IsSafe (scan_standby srv w slot ordinal s)
  unfolding scan_standby
  scan_standby-IsSafe slot ordinal s a o p q h = elim (Bool-cases (leb w.want ordinal)) [
    | inl removed ↦
        elim (Bool-cases (not w.allow_drops || slot.active || contains w.pvcs ordinal)) [
          | inl kept ↦ rw (removed, kept) h
          | inr gone ↦
              rw (removed, gone)
                (drop_removed-IsSafe slot.name s (srv.drop s.log slot.name)
                  (
                    slot,
                    a,
                    refl,
                    (
                      ordinal,
                      o,
                      p,
                      q,
                      ground (arith, gone),
                      inl (ground (arith, removed), ground (arith, gone), ground (arith, gone)),
                    ),
                  )
                  h)
        ]
    | inr wanted ↦ elim (Bool-cases (slot.lost && not slot.active)) [
      | inl lost ↦
          rw (wanted, lost)
            (drop_lost-IsSafe slot.name ordinal s (srv.drop s.log slot.name)
              (slot, a, refl, (ordinal, o, p, q, ground (arith, lost), inr (ground (arith, lost))))
              h)
      | inr healthy ↦ rw (wanted, healthy) h
    ]
  ]

  scan_slot-IsSafe :
      (slot : ReplicationSlot) (o : Option ℕ) (s : SlotScan)
      → Among slot all
      → slot_ordinal slot.name ≡ o
      → IsSafe s
      → IsSafe (scan_slot srv w slot o s)
  unfolding scan_slot
  scan_slot-IsSafe slot none s a o h = h
  scan_slot-IsSafe slot (some ordinal) s a o h =
      elim (Bool-cases (not slot.physical || ordinal == 0)) [
        | inl foreign ↦ rw foreign h
        | inr standby ↦ rw standby (
            scan_standby-IsSafe slot ordinal s a o (ground (arith, standby))
              (ground (arith, standby)) h)
      ]

  unless_failed-IsSafe :
      (s next : SlotScan) (e : Option CallError)
      → IsSafe s
      → IsSafe next
      → IsSafe (unless_failed srv w s e next)
  unless_failed-IsSafe s next (some e) h k = h
  unless_failed-IsSafe s next none h k = k

  scan_slots-IsSafe :
      (slots : List ReplicationSlot) (s : SlotScan)
      → ((slot : ReplicationSlot) → Among slot slots → Among slot all)
      → IsSafe s
      → IsSafe (scan_slots srv w slots s)
  unfolding scan_slots
  scan_slots-IsSafe [] s a h = h
  scan_slots-IsSafe (slot ∷ slots) s a h = unless_failed-IsSafe s _ s.error h (
      scan_slots-IsSafe slots _ (λ x m. a x (inr m))
        (scan_slot-IsSafe slot (slot_ordinal slot.name) s (a slot (inl refl)) refl h))

  create_slots-IsSafe :
      (i n : ℕ) (s : SlotScan)
      → 1 ≤ i
      → i + n ≤ w.want ⊎ (n ≡ 0)
      → IsSafe s
      → IsSafe (create_slots srv w i n s)
  unfolding create_slots create_slot
  create_slots-IsSafe i ℕ.zero s p q h = h
  create_slots-IsSafe i (ℕ.suc n) s p (inr q) h = absurd (ground (arith, q))
  create_slots-IsSafe i (ℕ.suc n) s p (inl q) h =
      unless_failed-IsSafe s _ s.error h
        (create_slots-IsSafe (i + 1) n _ (ground (arith, p)) (inl (ground (arith, q))) round)
    where
      round : IsSafe (
          if not (contains s.existing (replication_slot_name i)) && contains w.pods i
          then create_slot srv w (replication_slot_name i) s (
              srv.create s.log
                (replication_slot_name i)
                (not (contains s.lost (replication_slot_name i))))
          else s)
      round =
          elim (Bool-cases
            (not (contains s.existing (replication_slot_name i)) && contains w.pods i)) [
              | inl missing ↦
                  rw missing ((i, p, ground (arith, q), ground (arith, missing), refl), h)
              | inr there ↦ rw there h
            ]

-- Whatever PostgreSQL answers, a reconcile drops only slots of the list that are of standbys, physical and
-- not in use, and whose standby is not wanted, has no volume left and may lose its slot, or whose WAL is
-- lost; and creates only the slots of standbys that are wanted and have a pod.
pub reconcile_replication_slots-IsSafe :
    (srv : ReplicationServer) (w : Wanted) (slots : List ReplicationSlot)
    → All (IsSafeCall w slots) (reconcile_replication_slots srv w slots).log
unfolding reconcile_replication_slots
reconcile_replication_slots-IsSafe srv w slots =
    create_slots-IsSafe srv w slots 1 (w.want - 1) _ (ground arith) (ground arith)
      (scan_slots-IsSafe srv w slots slots _ (λ x m. m) tt)
