-- ===== src/Replication/Volumes.antt =====
-- The data volumes of removed standbys: `cleanupStandbyVolumes` of internal/controller/replication.go. What the API
-- server answers is a function of the volumes deleted before, and of the volume, whose UID is the
-- precondition of the call.
pub mod Removed
use pgop.Prelude.{
  ℕ, ◌≤◌, Bool, false, not, ◌&&◌, ◌||◌, List, [], ◌∷◌, ◌++◌, ◌==◌, nat_eq, ltb, leb, ◌≡◌, inl, inr,
  if◌then◌else◌, contains, Option, none, some, All, All-map, arith, Bool-cases,
}
use pgop.Text.{Text, text}
use pgop.Grants.Engine.{CallError}
use pgop.Replication.{parse_ordinal}

-- A PersistentVolumeClaim of the Cluster.
pub record Pvc : Type 0 where
  pub name : Text
  pub uid : Text
  pub deleting : Bool

-- The answer to a Delete; apierrors.IsNotFound counts as done.
pub data Deleted : Type 0 where
  done not_found : Deleted
  failed : CallError → Deleted

-- max(desiredReplicas, sts.Spec.Replicas), where the StatefulSet has it.
unfoldable pub sts_replicas : ℕ → Option ℕ → ℕ
sts_replicas desired none = desired
sts_replicas desired (some n) = if leb desired n then n else desired

-- `desiredReplicas`
unfoldable pub desired_replicas : ℕ → ℕ
desired_replicas replicas = if ltb replicas 1 then 1 else replicas

unfoldable pub pod_ordinal : Text → Text → Option ℕ
unfolding parse_ordinal
pod_ordinal cluster name = parse_ordinal name (cluster ++ text "-")

unfoldable pub pvc_ordinal : Text → Text → Option ℕ
unfolding parse_ordinal
pvc_ordinal cluster name = parse_ordinal name (text "data-" ++ (cluster ++ text "-"))

abbrev pub onto_ordinals : Option ℕ → List ℕ → List ℕ
onto_ordinals none ns = ns
onto_ordinals (some n) ns = n ∷ ns

-- `podExists`
unfoldable pub pod_ordinals : Text → List Text → List ℕ
unfolding pod_ordinal
pod_ordinals cluster [] = []
pod_ordinals cluster (p ∷ ps) = onto_ordinals (pod_ordinal cluster p) (pod_ordinals cluster ps)

-- The ordinals whose volume remains, the volumes that were asked to be deleted, the latest first, and
-- the error that ended the loop.
pub record Cleanup : Type 0 where
  pub remaining : List ℕ
  pub deleted : List Pvc
  pub error : Option CallError

abbrev pub remains : ℕ → Cleanup → Cleanup
remains n c = record c { remaining = n ∷ c.remaining }

module _ (delete : List Pvc → Pvc → Deleted) (replicas : ℕ) (pods : List ℕ) where
  unfoldable pub after_delete : Pvc → ℕ → Cleanup → Deleted → Cleanup
  after_delete p n c (failed e) = record c {
    remaining = n ∷ c.remaining;
    deleted = p ∷ c.deleted;
    error = some e;
  }
  after_delete p n c done = record c { deleted = p ∷ c.deleted }
  after_delete p n c not_found = record c { deleted = p ∷ c.deleted }

  unfoldable pub clean_pvc : Pvc → Option ℕ → Cleanup → Cleanup
  unfolding after_delete contains
  clean_pvc p none c = c
  clean_pvc p (some n) c =
      if p.deleting && not (n == 0)
      then c
      else if n == 0 || ltb n replicas || contains pods n
      then remains n c
      else after_delete p n c (delete c.deleted p)

  abbrev pub unless_error : Cleanup → Option CallError → Cleanup → Cleanup
  unless_error c (some e) next = c
  unless_error c none next = next

  unfoldable pub clean_pvcs : Text → List Pvc → Cleanup → Cleanup
  unfolding clean_pvc pvc_ordinal
  clean_pvcs cluster [] c = c
  clean_pvcs cluster (p ∷ ps) c =
      unless_error c c.error (clean_pvcs cluster ps (clean_pvc p (pvc_ordinal cluster p.name) c))

-- `cleanupStandbyVolumes`, of the volumes and pods that are listed.
unfoldable pub cleanup_standby_volumes :
    (List Pvc → Pvc → Deleted) → ℕ → Option ℕ → Text → List Text → List Pvc → Cleanup
unfolding clean_pvcs sts_replicas desired_replicas pod_ordinals
cleanup_standby_volumes delete spec sts cluster pods pvcs =
    clean_pvcs delete (sts_replicas (desired_replicas spec) sts) (pod_ordinals cluster pods) cluster
      pvcs (record { remaining = []; deleted = []; error = none })
