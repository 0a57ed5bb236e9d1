-- ===== src/Grants/Ledger/Merge.antt =====
-- What the maps of `applyPrivilegeGrants` hold, read off the lists that they are built from.
use pgop.Prelude.{
  Bool, false, ◌&&◌, ◌||◌, List, [], ◌∷◌, ◌≡◌, refl, ◌∙◌, arith, ◌==◌, if◌then◌else◌, contains,
  Bool-cases, inl, inr, ◌⊎◌,
}
use pgop.Text.{Text, text_eq, text_beq_iff}
use pgop.Grants.Sets.{contains-union}
use pgop.Grants.Target.{PrivilegeGrant, key, no_grant}
use pgop.Grants.Ledger.{
  Ledger, get, put, remove, merge_grant, track, tracked, want_from, want, get-put, get-remove,
}

-- Some grant of the list with this key has the privilege, or the grant option.
abbrev pub lists : List PrivilegeGrant → Text → Text → Bool
lists [] k p = false
lists (g ∷ gs) k p = (key g.target == k && contains g.privileges p) || lists gs k p

abbrev pub lists_option : List PrivilegeGrant → Text → Text → Bool
lists_option [] k p = false
lists_option (g ∷ gs) k p = (key g.target == k && contains g.grant_options p) || lists_option gs k p

abbrev pub has_key : List PrivilegeGrant → Text → Bool
has_key [] k = false
has_key (g ∷ gs) k = key g.target == k || has_key gs k

abbrev pub HasDistinctKeys : List PrivilegeGrant → Type 0
HasDistinctKeys [] = Unit
HasDistinctKeys (g ∷ gs) = (has_key gs (key g.target) ≡ false) × HasDistinctKeys gs

get-track :
    (m : Ledger) (gs : List PrivilegeGrant) (k p : Text)
    → contains (get (track m gs) k).privileges p ≡ (contains (get m k).privileges p || lists gs k p)
unfolding track merge_grant
get-track m [] k p = ground arith
get-track m (g ∷ gs) k p =
    let j = key g.target in
    let v = merge_grant (get m j) g in
    ground (
      arith,
      get-track (put m j v) gs k p,
      get-put m j k v,
      contains-union (get m j).privileges g.privileges p,
      text_beq_iff j k,
    )

get-track_options :
    (m : Ledger) (gs : List PrivilegeGrant) (k p : Text)
    → contains (get (track m gs) k).grant_options p
      ≡ (contains (get m k).grant_options p || lists_option gs k p)
unfolding track merge_grant
get-track_options m [] k p = ground arith
get-track_options m (g ∷ gs) k p =
    let j = key g.target in
    let v = merge_grant (get m j) g in
    ground (
      arith,
      get-track_options (put m j v) gs k p,
      get-put m j k v,
      contains-union (get m j).grant_options g.grant_options p,
      text_beq_iff j k,
    )

-- The tracked entry of a key records what some entry of the ledger with that key records.
pub get-tracked :
    (gs : List PrivilegeGrant) (k p : Text)
    → contains (get (tracked gs) k).privileges p ≡ lists gs k p
unfolding tracked get contains
get-tracked gs k p = get-track [] gs k p

pub get-tracked_options :
    (gs : List PrivilegeGrant) (k p : Text)
    → contains (get (tracked gs) k).grant_options p ≡ lists_option gs k p
unfolding tracked get contains
get-tracked_options gs k p = get-track_options [] gs k p

lists_nothing :
    (gs : List PrivilegeGrant) (k p : Text) → has_key gs k ≡ false → lists gs k p ≡ false
lists_nothing [] k p h = refl
lists_nothing (g ∷ gs) k p h = ground (arith, lists_nothing gs k p)

lists_no_option :
    (gs : List PrivilegeGrant) (k p : Text) → has_key gs k ≡ false → lists_option gs k p ≡ false
lists_no_option [] k p h = refl
lists_no_option (g ∷ gs) k p h = ground (arith, lists_no_option gs k p)

get-want_from :
    (m : Ledger) (ds : List PrivilegeGrant) (k p : Text)
    → HasDistinctKeys ds
    → contains (get (want_from m ds) k).privileges p
      ≡ (if has_key ds k then lists ds k p else contains (get m k).privileges p)
unfolding want_from
get-want_from m [] k p h = refl
get-want_from m (d ∷ ds) k p (fresh, h) = ground (
  arith,
  get-want_from (put m (key d.target) d) ds k p h,
  get-put m (key d.target) k d,
  text_beq_iff (key d.target) k,
  lists_nothing ds k p,
)

get-want_from_options :
    (m : Ledger) (ds : List PrivilegeGrant) (k p : Text)
    → HasDistinctKeys ds
    → contains (get (want_from m ds) k).grant_options p
      ≡ (if has_key ds k then lists_option ds k p else contains (get m k).grant_options p)
unfolding want_from
get-want_from_options m [] k p h = refl
get-want_from_options m (d ∷ ds) k p (fresh, h) = ground (
  arith,
  get-want_from_options (put m (key d.target) d) ds k p h,
  get-put m (key d.target) k d,
  text_beq_iff (key d.target) k,
  lists_no_option ds k p,
)

-- The wanted entry of a key has what the desired grant with that key declares.
pub get-want :
    (ds : List PrivilegeGrant) (k p : Text)
    → HasDistinctKeys ds
    → contains (get (want ds) k).privileges p ≡ lists ds k p
unfolding want get contains
get-want ds k p h = ground (arith, get-want_from [] ds k p h, lists_nothing ds k p)

pub get-want_options :
    (ds : List PrivilegeGrant) (k p : Text)
    → HasDistinctKeys ds
    → contains (get (want ds) k).grant_options p ≡ lists_option ds k p
unfolding want get contains
get-want_options ds k p h =
    ground (arith, get-want_from_options [] ds k p h, lists_no_option ds k p)

-- Each entry stands under its own key.
abbrev pub IsKeyed : Ledger → Type 0
IsKeyed m = (k : Text) → (key (get m k).target ≡ k) ⊎ (get m k ≡ no_grant)

pub IsKeyed-nil : IsKeyed []
unfolding get
IsKeyed-nil k = inr refl

pub IsKeyed-put :
    (m : Ledger) (k : Text) (v : PrivilegeGrant)
    → key v.target ≡ k
    → IsKeyed m
    → IsKeyed (put m k v)
IsKeyed-put m k v e h j = elim (Bool-cases (k == j)) [
  | inl same ↦ inl (rw (get-put m k j v, same) (e ∙ (text_beq_iff k j).0 same))
  | inr other ↦ rw (get-put m k j v, other) (h j)
]

pub IsKeyed-remove : (m : Ledger) (k : Text) → IsKeyed m → IsKeyed (remove m k)
IsKeyed-remove m k h j = elim (Bool-cases (k == j)) [
  | inl same ↦ inr (rw (get-remove m k j, same))
  | inr other ↦ rw (get-remove m k j, other) (h j)
]

track-IsKeyed : (m : Ledger) (gs : List PrivilegeGrant) → IsKeyed m → IsKeyed (track m gs)
unfolding track merge_grant
track-IsKeyed m [] h = h
track-IsKeyed m (g ∷ gs) h =
    track-IsKeyed (put m (key g.target) (merge_grant (get m (key g.target)) g)) gs
      (IsKeyed-put m (key g.target) _ refl h)

pub tracked-IsKeyed : (gs : List PrivilegeGrant) → IsKeyed (tracked gs)
unfolding tracked
tracked-IsKeyed gs = track-IsKeyed [] gs IsKeyed-nil
