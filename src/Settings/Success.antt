-- ===== src/Settings/Success.antt =====
-- `applySettings` without an error.
use pgop.Prelude.{
  Bool, true, false, not, ◌&&◌, ◌||◌, List, [], ◌∷◌, ◌≡◌, refl, ◌∙◌, ap, arith, ◌==◌, contains,
  if◌then◌else◌, Option, none, some, Result, ok, err, >>=-eq-ok, Bool-cases, Option-cases, inl, inr,
  eq_of_==,
}
use pgop.Text.{Text, text_eq}
use pgop.Text.Sort.{sort, contains-sort, contains-compact}
use pgop.Grants.Engine.{CallError}
use pgop.Policy.Roles.{Policy}
use pgop.Settings.{
  Settings, names_of, value_of, sorted_keys, in_order, Contexts, Refusal, setting_allowed, judge,
  allowed_settings, Log, SettingOps, Progress, set_all, after_set, apply_allowed, SortedOut,
  apply_judged, apply_settings,
}
use pgop.Settings.Ledger.{value_in, Covers}
use pgop.Settings.Values.{
  value_of-missing, value_of-found, value_of-in_order, entries_at-Agrees, or_value, set_all-value,
  set_all-tracked, removed, reset_all-value,
}

-- What a verdict leaves of a value.
abbrev pub permitted : Option Refusal → Option Text → Option Text
permitted none v = v
permitted (some r) v = none

names_of-in_order :
    (s : Settings) (n : Text) → contains (names_of (in_order s)) n ≡ contains (names_of s) n
names_of-in_order s n = elim (Bool-cases (contains (names_of (in_order s)) n)) [
  | inl e ↦ elim (Bool-cases (contains (names_of s) n)) [
    | inl f ↦ ground (arith, e, f)
    | inr f ↦
        let (v, k) = value_of-found (in_order s) n e in
        ground (arith, k, value_of-missing s n f, value_of-in_order s n)
  ]
  | inr e ↦ elim (Bool-cases (contains (names_of s) n)) [
    | inr f ↦ ground (arith, e, f)
    | inl f ↦
        let (v, k) = value_of-found s n f in
        ground (arith, k, value_of-missing (in_order s) n e, value_of-in_order s n)
  ]
]

allowed_settings-value :
    (contexts : Contexts) (policy : Policy) (s : Settings) (out : SortedOut) (n : Text)
    (r : Option Refusal)
    → allowed_settings contexts policy s ≡ ok out
    → setting_allowed contexts policy n ≡ ok r
    → value_of out.0 n ≡ permitted r (value_of s n)
unfolding allowed_settings value_of
allowed_settings-value contexts policy [] out n none h k = ground (arith, h)
allowed_settings-value contexts policy [] out n (some x) h k = ground (arith, h)
allowed_settings-value contexts policy ((m, v) ∷ s) out n r h k =
    let (reason, e, h1) = >>=-eq-ok (setting_allowed contexts policy m) _ h in
    let (rest, f, h2) = >>=-eq-ok (allowed_settings contexts policy s) _ h1 in
    let same : judge m v reason rest ≡ out = cc h2 in
    head reason rest e same (allowed_settings-value contexts policy s rest n r f k)
  where
    head :
        (reason : Option Refusal) (rest : SortedOut)
        → setting_allowed contexts policy m ≡ ok reason
        → judge m v reason rest ≡ out
        → value_of rest.0 n ≡ permitted r (value_of s n)
        → value_of out.0 n ≡ permitted r (value_of ((m, v) ∷ s) n)
    head none rest e same ih = elim (Bool-cases (m == n)) [
      | inl q ↦
          let here : r ≡ none =
            ground (arith, e, k, ap (setting_allowed contexts policy) (eq_of_== m n q)) in
          ground (arith, same, here, q)
      | inr q ↦ ground (arith, same, q, ih)
    ]
    head (some x) rest e same ih = elim (Bool-cases (m == n)) [
      | inl q ↦
          let here : r ≡ some x =
            ground (arith, e, k, ap (setting_allowed contexts policy) (eq_of_== m n q)) in
          ground (arith, same, here, ih)
      | inr q ↦ ground (arith, same, q, ih)
    ]

abbrev pub is_some : Option Text → Bool
is_some none = false
is_some (some v) = true

listed-some : (s : Settings) (n : Text) → contains (names_of s) n ≡ is_some (value_of s n)
listed-some s n = elim (Bool-cases (contains (names_of s) n)) [
  | inl e ↦ let (v, f) = value_of-found s n e in ground (arith, e, f)
  | inr e ↦ ground (arith, e, value_of-missing s n e)
]

module _ (prior : Text → Option Text) (ops : SettingOps) where
  -- What the loops leave of a name: its value, and whether it is tracked.
  abbrev IsFinished : Settings → List Text → Log → Text → Progress → Type 0
  IsFinished allowed managed log n p =
      (value_in prior p.log n ≡ (
        if removed allowed managed n
        then none
        else or_value (value_of allowed n) (value_in prior log n)))
      × (contains p.tracked n ≡ (
          (contains (names_of allowed) n || contains managed n) && not (removed allowed managed n)))

  after_set-IsFinished :
      (allowed : Settings) (managed : List Text) (log : Log) (n : Text) (o : Option CallError)
      → (set_all ops (in_order allowed) managed log).error ≡ o
      → (after_set ops allowed managed (set_all ops (in_order allowed) managed log) o).error ≡ none
      → IsFinished allowed managed log n
          (after_set ops allowed managed (set_all ops (in_order allowed) managed log) o)
  after_set-IsFinished allowed managed log n (some e) f h = ground (arith, f, h)
  after_set-IsFinished allowed managed log n none f h =
      let p = set_all ops (in_order allowed) managed log in
      let values =
        set_all-value prior ops allowed (in_order allowed) managed log n
          (entries_at-Agrees allowed (sorted_keys (names_of allowed))) f in
      let listed = set_all-tracked prior ops (in_order allowed) managed log n f in
      let (k, l) = reset_all-value prior ops allowed managed p.tracked p.log n h in
      (
        ground (arith, k, values, value_of-in_order allowed n),
        ground (arith, l, listed, names_of-in_order allowed n),
      )

  judged-Success :
      (r : Result CallError SortedOut) (managed : List Text) (log : Log) (n : Text)
      → Covers prior log managed
      → (apply_judged ops managed log r).error ≡ none
      → (out : SortedOut) × (r ≡ ok out)
        × (value_in prior (apply_judged ops managed log r).log n ≡ value_of out.0 n)
        × (contains (apply_judged ops managed log r).after n ≡ contains (names_of out.0) n)
  unfolding apply_judged apply_allowed
  judged-Success (err e) managed log n h k = cc
  judged-Success (ok (allowed, refused)) managed log n h k =
      let p = apply_allowed ops allowed managed log in
      let (v, t) =
        after_set-IsFinished allowed managed log n
          (set_all ops (in_order allowed) managed log).error refl k in
      (
        (allowed, refused),
        refl,
        elim (Option-cases (value_in prior log n)) [
          | inl q ↦ ground (arith, v, q, value_of-missing allowed n)
          | inr (w, q) ↦ elim (Bool-cases (contains (names_of allowed) n)) [
            | inr a ↦ ground (arith, v, q, a, h n w q, value_of-missing allowed n)
            | inl a ↦ let (x, f) = value_of-found allowed n a in ground (arith, v, q, a, f)
          ]
        ],
        contains-compact (sort p.tracked) n ∙ contains-sort p.tracked n ∙ t ∙ ground arith,
      )

  -- When `applySettings` ends without an error, and the names it began with held every setting of
  -- the target, then for every name with a verdict the target has the desired value if the verdict
  -- permits it and no value otherwise, and the name is listed afterwards exactly if it is a
  -- permitted and desired one.
  pub apply_settings-Success :
      (contexts : Contexts) (policy : Policy) (desired : Settings) (managed : List Text) (log : Log)
      → Covers prior log managed
      → (apply_settings contexts ops policy desired managed log).error ≡ none
      → (n : Text) (r : Option Refusal) → setting_allowed contexts policy n ≡ ok r
      → (value_in prior (apply_settings contexts ops policy desired managed log).log n
          ≡ permitted r (value_of desired n))
        × (contains (apply_settings contexts ops policy desired managed log).after n
            ≡ is_some (permitted r (value_of desired n)))
  unfolding apply_settings
  apply_settings-Success contexts policy desired managed log h k n r v =
      let (out, e, value, listed) =
        judged-Success (allowed_settings contexts policy (in_order desired)) managed log n h k in
      let allowed = allowed_settings-value contexts policy (in_order desired) out n r e v in
      let same = ap (permitted r) (value_of-in_order desired n) in
      (value ∙ allowed ∙ same, listed ∙ listed-some out.0 n ∙ ap is_some (allowed ∙ same))
