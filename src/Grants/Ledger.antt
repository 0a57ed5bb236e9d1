-- ===== src/Grants/Ledger.antt =====
-- The maps of grants, keyed by ledger key, that `applyPrivilegeGrants` of
-- internal/controller/privilege_grants.go keeps: a missing key reads as the zero grant.
pub mod Merge
use pgop.Prelude.{
  Bool, true, false, not, ◌||◌, List, [], ◌∷◌, ◌++◌, ◌≡◌, refl, arith, ◌==◌, Eq, if◌then◌else◌,
  contains, map,
}
use pgop.Text.{Text, text_eq, text_beq_iff}
use pgop.Text.Sort.{sort}
use pgop.Grants.Sets.{union}
use pgop.Grants.Target.{PrivilegeGrant, key, no_grant, empty}

abbrev pub Ledger : Type 0
Ledger = List (Text × PrivilegeGrant)

-- m[k]
unfoldable pub get : Ledger → Text → PrivilegeGrant
get [] k = no_grant
get ((j, g) ∷ m) k = if j == k then g else get m k

-- m[k] = v
unfoldable pub put : Ledger → Text → PrivilegeGrant → Ledger
put [] k v = (k, v) ∷ []
put ((j, g) ∷ m) k v = if j == k then (k, v) ∷ m else (j, g) ∷ put m k v

-- delete(m, k)
unfoldable pub remove : Ledger → Text → Ledger
remove [] k = []
remove ((j, g) ∷ m) k = let rest = remove m k in if j == k then rest else (j, g) ∷ rest

-- maps.Keys
unfoldable pub keys : Ledger → List Text
keys [] = []
keys ((j, g) ∷ m) = j ∷ keys m

unfoldable pub merge_grant : PrivilegeGrant → PrivilegeGrant → PrivilegeGrant
merge_grant a b = record {
  target = b.target;
  privileges = union a.privileges b.privileges;
  grant_options = union a.grant_options b.grant_options;
}

-- The entries of the ledger in status, merged where they share a key.
track : Ledger → List PrivilegeGrant → Ledger
track m [] = m
track m (g ∷ gs) = track (put m (key g.target) (merge_grant (get m (key g.target)) g)) gs

unfoldable pub tracked : List PrivilegeGrant → Ledger
unfolding track
tracked managed = track [] managed

-- The desired grants: the last of those with one key counts.
want_from : Ledger → List PrivilegeGrant → Ledger
want_from m [] = m
want_from m (d ∷ ds) = want_from (put m (key d.target) d) ds

unfoldable pub want : List PrivilegeGrant → Ledger
unfolding want_from
want desired = want_from [] desired

-- The grants of some keys, without the empty ones.
unfoldable pub non_empty : Ledger → List Text → List PrivilegeGrant
non_empty m [] = []
non_empty m (k ∷ ks) = let out = non_empty m ks in if empty (get m k) then out else get m k ∷ out

unfoldable pub sorted_grants : Ledger → List PrivilegeGrant
unfolding non_empty
sorted_grants m = non_empty m (sort (keys m))

pub get-put :
    (m : Ledger) (k j : Text) (v : PrivilegeGrant)
    → get (put m k v) j ≡ (if k == j then v else get m j)
unfolding get put
get-put [] k j v = refl
get-put ((i, g) ∷ m) k j v =
    ground (arith, text_beq_iff i k, text_beq_iff i j, text_beq_iff k j, get-put m k j v)

pub get-remove :
    (m : Ledger) (k j : Text) → get (remove m k) j ≡ (if k == j then no_grant else get m j)
unfolding get remove
get-remove [] k j = ground arith
get-remove ((i, g) ∷ m) k j =
    ground (arith, text_beq_iff i k, text_beq_iff i j, text_beq_iff k j, get-remove m k j)

pub contains-keys-put :
    (m : Ledger) (k j : Text) (v : PrivilegeGrant)
    → contains (keys (put m k v)) j ≡ (k == j || contains (keys m) j)
unfolding keys put contains
contains-keys-put [] k j v = refl
contains-keys-put ((i, g) ∷ m) k j v =
    ground (arith, text_beq_iff i k, text_beq_iff i j, text_beq_iff k j, contains-keys-put m k j v)

-- A key that the map lacks reads as the zero grant.
pub get-missing : (m : Ledger) (k : Text) → contains (keys m) k ≡ false → get m k ≡ no_grant
unfolding keys get contains
get-missing [] k h = refl
get-missing ((i, g) ∷ m) k h = ground (arith, get-missing m k)
