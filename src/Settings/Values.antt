-- ===== src/Settings/Values.antt =====
-- What the target of the settings has when `applySettings` succeeds.
use pgop.Prelude.{
  Bool, true, false, not, ◌&&◌, ◌||◌, List, [], ◌∷◌, ◌≡◌, refl, ◌∙◌, ap, arith, ◌==◌, contains,
  if◌then◌else◌, Option, none, some, Bool-cases, Option-cases, inl, inr, eq_of_==,
}
use pgop.Text.{Text, text_eq}
use pgop.Text.Sort.{sort, contains-sort, contains-compact}
use pgop.Settings.{
  Settings, names_of, value_of, sorted_keys, entries_at, in_order, set, reset, Log, SettingOps,
  forget, set_all, reset_all,
}
use pgop.Settings.Ledger.{value_in, contains-forget}

pub value_of-missing :
    (s : Settings) (n : Text) → contains (names_of s) n ≡ false → value_of s n ≡ none
unfolding value_of contains
value_of-missing [] n h = refl
value_of-missing ((m, v) ∷ s) n h = ground (arith, h, value_of-missing s n)

pub value_of-found :
    (s : Settings) (n : Text)
    → contains (names_of s) n ≡ true
    → (v : Text) × (value_of s n ≡ some v)
unfolding value_of contains
value_of-found [] n h = cc
value_of-found ((m, v) ∷ s) n h = elim (Bool-cases (m == n)) [
  | inl e ↦ (v, ground (arith, e))
  | inr e ↦ let (w, k) = value_of-found s n (ground (arith, e, h)) in (w, ground (arith, e, k))
]

value_of-entries_at :
    (s : Settings) (ns : List Text) (n : Text)
    → value_of (entries_at s ns) n ≡ (if contains ns n then value_of s n else none)
unfolding value_of contains entries_at
value_of-entries_at s [] n = refl
value_of-entries_at s (m ∷ ns) n = elim (Option-cases (value_of s m)) [
  | inl f ↦ elim (Bool-cases (m == n)) [
    | inl e ↦ ground (arith, e, f, eq_of_== m n e, value_of-entries_at s ns n)
    | inr e ↦ ground (arith, e, f, value_of-entries_at s ns n)
  ]
  | inr (v, f) ↦ elim (Bool-cases (m == n)) [
    | inl e ↦ ground (arith, e, f, ap (value_of s) (eq_of_== m n e), value_of-entries_at s ns n)
    | inr e ↦ ground (arith, e, f, value_of-entries_at s ns n)
  ]
]

-- Ordering the entries of a map changes no value.
pub value_of-in_order : (s : Settings) (n : Text) → value_of (in_order s) n ≡ value_of s n
value_of-in_order s n =
    value_of-entries_at s (sorted_keys (names_of s)) n
    ∙ ground (
      arith,
      contains-compact (sort (names_of s)) n,
      contains-sort (names_of s) n,
      value_of-missing s n,
    )

abbrev pub or_value : Option Text → Option Text → Option Text
or_value (some v) d = some v
or_value none d = d

-- Entries of a map.
abbrev pub Agrees : Settings → Settings → Type 0
Agrees src [] = true ≡ true
Agrees src ((m, v) ∷ s) = (value_of src m ≡ some v) × Agrees src s

pub entries_at-Agrees : (src : Settings) (ns : List Text) → Agrees src (entries_at src ns)
unfolding entries_at
entries_at-Agrees src [] = refl
entries_at-Agrees src (m ∷ ns) = elim (Option-cases (value_of src m)) [
  | inl f ↦ rw (f, entries_at) (entries_at-Agrees src ns)
  | inr (v, f) ↦ rw (f, entries_at) (f, entries_at-Agrees src ns)
]

value_of-Agrees :
    (src s : Settings) (n w : Text) → Agrees src s → value_of s n ≡ some w → value_of src n ≡ some w
unfolding value_of
value_of-Agrees src [] n w a h = cc
value_of-Agrees src ((m, v) ∷ s) n w (a, b) h = elim (Bool-cases (m == n)) [
  | inl e ↦ ground (arith, a, h, e, ap (value_of src) (eq_of_== m n e))
  | inr e ↦ value_of-Agrees src s n w b (ground (arith, h, e))
]

-- The managed names that are reset.
abbrev pub removed : Settings → List Text → Text → Bool
removed allowed ns n = contains ns n && not (contains (names_of allowed) n)

module _ (prior : Text → Option Text) (ops : SettingOps) where
  pub set_all-value :
      (src s : Settings) (tracked : List Text) (log : Log) (n : Text)
      → Agrees src s
      → (set_all ops s tracked log).error ≡ none
      → value_in prior (set_all ops s tracked log).log n
        ≡ or_value (value_of s n) (value_in prior log n)
  unfolding set_all value_in value_of
  set_all-value src [] tracked log n a h = refl
  set_all-value src ((m, v) ∷ s) tracked log n (a, b) h = elim (Option-cases (ops.set log m v)) [
    | inr (e, f) ↦ ground (arith, f, h)
    | inl f ↦
        let ih = set_all-value src s (m ∷ tracked) (set m v ∷ log) n b (ground (arith, f, h)) in
        elim (Bool-cases (m == n)) [
          | inr e ↦ ground (arith, f, e, ih)
          | inl e ↦ elim (Option-cases (value_of s n)) [
            | inl g ↦ ground (arith, f, e, g, ih)
            | inr (w, g) ↦ ground (
              arith,
              f,
              e,
              g,
              ih,
              a,
              ap (value_of src) (eq_of_== m n e),
              value_of-Agrees src s n w b g,
            )
          ]
        ]
  ]

  pub set_all-tracked :
      (s : Settings) (tracked : List Text) (log : Log) (n : Text)
      → (set_all ops s tracked log).error ≡ none
      → contains (set_all ops s tracked log).tracked n
        ≡ (contains (names_of s) n || contains tracked n)
  unfolding set_all contains
  set_all-tracked [] tracked log n h = refl
  set_all-tracked ((m, v) ∷ s) tracked log n h = elim (Option-cases (ops.set log m v)) [
    | inr (e, f) ↦ ground (arith, f, h)
    | inl f ↦
        ground (arith, f, set_all-tracked s (m ∷ tracked) (set m v ∷ log) n (ground (arith, f, h)))
  ]

  pub reset_all-value :
      (allowed : Settings) (ns tracked : List Text) (log : Log) (n : Text)
      → (reset_all ops allowed ns tracked log).error ≡ none
      → (value_in prior (reset_all ops allowed ns tracked log).log n
          ≡ (if removed allowed ns n then none else value_in prior log n))
        × (contains (reset_all ops allowed ns tracked log).tracked n
            ≡ (contains tracked n && not (removed allowed ns n)))
  unfolding reset_all value_in contains
  reset_all-value allowed [] tracked log n h = (refl, ground arith)
  reset_all-value allowed (m ∷ ns) tracked log n h =
      elim (Bool-cases (contains (names_of allowed) m)) [
        | inl a ↦
            let (ih, jh) = reset_all-value allowed ns tracked log n (ground (arith, a, h)) in
            elim (Bool-cases (m == n)) [
              | inl e ↦
                  let same = ap (contains (names_of allowed)) (eq_of_== m n e) in
                  (ground (arith, a, e, ih, same), ground (arith, a, e, jh, same))
              | inr e ↦ (ground (arith, a, e, ih), ground (arith, a, e, jh))
            ]
        | inr a ↦ elim (Option-cases (ops.reset log m)) [
          | inr (e, f) ↦ ground (arith, a, f, h)
          | inl f ↦
              let (ih, jh) =
                reset_all-value allowed ns (forget tracked m) (reset m ∷ log) n
                  (ground (arith, a, f, h)) in
              let forgotten = contains-forget tracked m n in
              elim (Bool-cases (m == n)) [
                | inl e ↦
                    let same = ap (contains (names_of allowed)) (eq_of_== m n e) in
                    (
                      ground (arith, a, f, e, ih, same),
                      ground (arith, a, f, e, jh, same, forgotten),
                    )
                | inr e ↦ (ground (arith, a, f, e, ih), ground (arith, a, f, e, jh, forgotten))
              ]
        ]
      ]
