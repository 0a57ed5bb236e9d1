-- ===== src/Replication/Volumes/Removed.antt =====
-- Which volumes are deleted.
use pgop.Prelude.{
  ℕ, ◌≤◌, ◌+◌, ◌-◌, ◌*◌, false, not, ◌&&◌, ◌||◌, ◌⊎◌, List, [], ◌∷◌, ◌++◌, ◌==◌, nat_eq, ltb, leb,
  ◌≡◌, ◌≢◌, refl, sym, ap, ◌∙◌, inl, inr, contains, Option, none, some, All, All-map, arith,
  Bool-cases, eq_of_==, ==-refl,
}
use pgop.Text.{Text, text_eq, text}
use pgop.Text.Strings.{cut_prefix, cut_prefix-some, cut_prefix-append}
use pgop.Text.Strconv.{format_int}
use pgop.Text.Strconv.Unambiguous.{
  value_from, value_from-format_int, format_int-is_digit, format_int-is_empty,
}
use pgop.Grants.Engine.{CallError}
use pgop.Replication.{max_int, digits_value, canonical, ordinal_of, parse_ordinal}
use pgop.Replication.Volumes.{
  Pvc, Deleted, done, not_found, failed, sts_replicas, desired_replicas, pod_ordinal, pvc_ordinal,
  onto_ordinals, pod_ordinals, Cleanup, after_delete, clean_pvc, unless_error, clean_pvcs,
  cleanup_standby_volumes,
}

-- The name that an ordinal was read from.
ordinal_of-name :
    (o : Option Text) {n : ℕ} → ordinal_of o ≡ some n → (o ≡ some (format_int n)) × (n ≤ max_int)
unfolding ordinal_of
ordinal_of-name none h = absurd (ground (arith, h))
ordinal_of-name (some rest) {n} h = of_value (digits_value 0 rest) (ground (arith, h))
  where
    of_value :
        (v : Option ℕ)
        → canonical rest v ≡ some n
        → (some rest ≡ some (format_int n)) × (n ≤ max_int)
    of_value none k = absurd (ground (arith, k))
    of_value (some m) k = elim (Bool-cases (leb m max_int && format_int m == rest)) [
      | inr f ↦ absurd (ground (arith, k, f))
      | inl f ↦
          let same : m ≡ n = ground (arith, k, f) in
          let text : format_int m ≡ rest = eq_of_== (format_int m) rest (ground (arith, f)) in
          (ap some (sym text ∙ ap format_int same), ground (arith, f, same))
    ]

parse_ordinal-name :
    (name prefix : Text) {n : ℕ}
    → parse_ordinal name prefix ≡ some n
    → (name ≡ prefix ++ format_int n) × (n ≤ max_int)
unfolding parse_ordinal
parse_ordinal-name name prefix h =
    let (same, bound) = ordinal_of-name (cut_prefix name prefix) h in
    (cut_prefix-some name prefix same, bound)

digits_value-digits :
    (n : ℕ) (ds : Text)
    → All (λ d. (48 ≤ d) × (d ≤ 57)) ds
    → digits_value n ds ≡ some (value_from n ds)
unfolding digits_value value_from
digits_value-digits n [] h = refl
digits_value-digits n (d ∷ ds) ((l, u), h) =
    ground (arith, l, u, digits_value-digits (10 * n + (d - b'0')) ds h)

-- The name with the decimal of a number that fits an int is read as that number.
parse_ordinal-format_int :
    (prefix : Text) (n : ℕ) → n ≤ max_int → parse_ordinal (prefix ++ format_int n) prefix ≡ some n
unfolding parse_ordinal ordinal_of
parse_ordinal-format_int prefix n h =
    let value =
      digits_value-digits 0 (format_int n) (format_int-is_digit n)
      ∙ ap some (value_from-format_int n) in
    rw (cut_prefix-append prefix (format_int n), format_int-is_empty n, value)
      (ground (arith, h, ==-refl (format_int n)))

abbrev pub Among : Pvc → List Pvc → Type 0
Among p [] = ⊥
Among p (x ∷ xs) = (p ≡ x) ⊎ Among p xs

-- No pod with the ordinal is among those whose ordinals are known.
no_pod :
    (cluster : Text) (n : ℕ) (ps : List Text)
    → n ≤ max_int
    → contains (pod_ordinals cluster ps) n ≡ false
    → All (λ q. q ≢ (cluster ++ text "-") ++ format_int n) ps
unfolding pod_ordinals pod_ordinal contains
no_pod cluster n [] b h = tt
no_pod cluster n (p ∷ ps) b h = (
  (λ e. there (
      ap (λ q. parse_ordinal q (cluster ++ text "-")) e
      ∙ parse_ordinal-format_int (cluster ++ text "-") n b)),
  no_pod cluster n ps b (others (parse_ordinal p (cluster ++ text "-")) h),
)
  where
    others :
        (o : Option ℕ)
        → contains (onto_ordinals o (pod_ordinals cluster ps)) n ≡ false
        → contains (pod_ordinals cluster ps) n ≡ false
    others none k = k
    others (some m) k = ground (arith, k)

    there : parse_ordinal p (cluster ++ text "-") ≡ some n → ⊥
    there e =
        ground
          (arith, h, ap (λ o. contains (onto_ordinals o (pod_ordinals cluster ps)) n) e, ==-refl n)

-- A volume that may be deleted: one of the list, with the name of the data volume of a standby that
-- neither the spec nor the StatefulSet wants, and whose pod is not among the pods.
abbrev pub IsRemoved : ℕ → Option ℕ → Text → List Text → List Pvc → Pvc → Type 0
IsRemoved spec sts cluster pods pvcs p =
    (n : ℕ) × Among p pvcs
    × (p.name ≡ (text "data-" ++ (cluster ++ text "-")) ++ format_int n)
    × (1 ≤ n)
    × (spec ≤ n)
    × ((r : ℕ) → sts ≡ some r → r ≤ n)
    × All (λ q. q ≢ (cluster ++ text "-") ++ format_int n) pods

module _ (delete : List Pvc → Pvc → Deleted) (replicas : ℕ) (pods : List ℕ) (cluster : Text)
    (all : List Pvc) where
  abbrev IsGone : Pvc → Type 0
  IsGone p =
      (n : ℕ) × Among p all
      × (pvc_ordinal cluster p.name ≡ some n)
      × (1 ≤ n)
      × (replicas ≤ n)
      × (contains pods n ≡ false)

  after_delete-IsGone :
      (p : Pvc) (n : ℕ) (c : Cleanup) (d : Deleted)
      → IsGone p
      → All IsGone c.deleted
      → All IsGone (after_delete delete replicas pods p n c d).deleted
  unfolding after_delete
  after_delete-IsGone p n c (failed e) g h = (g, h)
  after_delete-IsGone p n c done g h = (g, h)
  after_delete-IsGone p n c not_found g h = (g, h)

  clean_pvc-IsGone :
      (p : Pvc) (o : Option ℕ) (c : Cleanup)
      → Among p all
      → pvc_ordinal cluster p.name ≡ o
      → All IsGone c.deleted
      → All IsGone (clean_pvc delete replicas pods p o c).deleted
  unfolding clean_pvc
  clean_pvc-IsGone p none c a e h = h
  clean_pvc-IsGone p (some n) c a e h = elim (Bool-cases (p.deleting && not (n == 0))) [
    | inl leaving ↦ rw leaving h
    | inr stays ↦ elim (Bool-cases (n == 0 || ltb n replicas || contains pods n)) [
      | inl needed ↦ rw (stays, needed) h
      | inr gone ↦
          rw (stays, gone)
            (after_delete-IsGone p n c (delete c.deleted p)
              (n, a, e, ground (arith, gone), ground (arith, gone), ground (arith, gone)) h)
    ]
  ]

  unless_error-IsGone :
      (c next : Cleanup) (e : Option CallError)
      → All IsGone c.deleted
      → All IsGone next.deleted
      → All IsGone (unless_error delete replicas pods c e next).deleted
  unless_error-IsGone c next (some e) h k = h
  unless_error-IsGone c next none h k = k

  clean_pvcs-IsGone :
      (ps : List Pvc) (c : Cleanup)
      → All (λ p. Among p all) ps
      → All IsGone c.deleted
      → All IsGone (clean_pvcs delete replicas pods cluster ps c).deleted
  unfolding clean_pvcs
  clean_pvcs-IsGone [] c a h = h
  clean_pvcs-IsGone (p ∷ ps) c (a, as') h =
      unless_error-IsGone c _ c.error h
        (clean_pvcs-IsGone ps _ as' (clean_pvc-IsGone p (pvc_ordinal cluster p.name) c a refl h))

within_replicas :
    (spec n : ℕ) (sts : Option ℕ)
    → sts_replicas (desired_replicas spec) sts ≤ n
    → (spec ≤ n) × ((r : ℕ) → sts ≡ some r → r ≤ n)
unfolding sts_replicas desired_replicas
within_replicas spec n none h = (ground (arith, h), λ r e. absurd (ground (arith, e)))
within_replicas spec n (some m) h =
    (ground (arith, h), λ r e. let same : m ≡ r = cc e in ground (arith, h, same))

all-Among : (ps : List Pvc) → All (λ p. Among p ps) ps
all-Among [] = tt
all-Among (x ∷ xs) = (inl refl, All-map (λ p m. inr m) xs (all-Among xs))

-- Whatever the API server answers, only volumes of the list are deleted whose name is that of the data
-- volume of a standby (of ordinal 1 or more, so never the primary's), that neither the spec nor the
-- StatefulSet wants, and whose pod is not among the pods.
pub cleanup_standby_volumes-IsRemoved :
    (delete : List Pvc → Pvc → Deleted) (spec : ℕ) (sts : Option ℕ) (cluster : Text)
    (pods : List Text) (pvcs : List Pvc)
    → All
        (IsRemoved spec sts cluster pods pvcs)
        (cleanup_standby_volumes delete spec sts cluster pods pvcs).deleted
unfolding cleanup_standby_volumes pvc_ordinal
cleanup_standby_volumes-IsRemoved delete spec sts cluster pods pvcs =
    All-map
      (λ p g.
        let (n, among, read, standby, unwanted, gone) = g in
        let (name, bound) =
          parse_ordinal-name p.name (text "data-" ++ (cluster ++ text "-")) read in
        let (a, b) = within_replicas spec n sts unwanted in
        (n, among, name, standby, a, b, no_pod cluster n pods bound gone))
      _
      (clean_pvcs-IsGone delete (sts_replicas (desired_replicas spec) sts)
        (pod_ordinals cluster pods) cluster pvcs pvcs
        (record { remaining = []; deleted = []; error = none }) (all-Among pvcs) tt)
