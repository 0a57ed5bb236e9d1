-- ===== src/Settings/Ledger.antt =====
-- What the target of the settings has after the statements, and what the ledger of `applySettings`
-- says of it.
use pgop.Prelude.{
  true, not, ◌&&◌, List, [], ◌∷◌, ◌≡◌, refl, ◌∙◌, ap, arith, ◌==◌, contains, if◌then◌else◌, Option,
  none, some, Result, ok, err, Bool-cases, Option-cases, inl, inr, eq_of_==, ==-refl,
}
use pgop.Text.{Text, text_eq}
use pgop.Text.Sort.{sort, contains-sort, contains-compact}
use pgop.Grants.Engine.{CallError}
use pgop.Policy.Roles.{Policy}
use pgop.Settings.{
  Settings, names_of, sorted_keys, in_order, Contexts, allowed_settings, set, reset, failed, Log,
  SettingOps, Progress, forget, set_all, reset_all, after_set, apply_allowed, SortedOut,
  apply_judged, apply_settings,
}

-- A statement that fails changes nothing; the others do what they say.
unfoldable pub value_in : (Text → Option Text) → Log → Text → Option Text
value_in prior [] n = prior n
value_in prior (set m v ∷ log) n = if m == n then some v else value_in prior log n
value_in prior (reset m ∷ log) n = if m == n then none else value_in prior log n
value_in prior (failed ∷ log) n = value_in prior log n

-- Every setting of the target is listed.
abbrev pub Covers : (Text → Option Text) → Log → List Text → Type 0
Covers prior log tracked = (n v : Text) → value_in prior log n ≡ some v → contains tracked n ≡ true

pub contains-forget :
    (ns : List Text) (m n : Text) → contains (forget ns m) n ≡ (contains ns n && not (m == n))
unfolding contains forget
contains-forget [] m n = refl
contains-forget (x ∷ ns) m n = elim (Bool-cases (x == m)) [
  | inl e ↦ ground (arith, e, contains-forget ns m n, ap (λ y. y == n) (eq_of_== x m e))
  | inr e ↦ elim (Bool-cases (x == n)) [
    | inl f ↦ elim (Bool-cases (m == n)) [
      | inl g ↦
          ground (arith, e, f, g, eq_of_== x n f, eq_of_== m n g, ==-refl n, contains-forget ns m n)
      | inr g ↦ ground (arith, e, f, g, contains-forget ns m n)
    ]
    | inr f ↦ ground (arith, e, f, contains-forget ns m n)
  ]
]

module _ (prior : Text → Option Text) (ops : SettingOps) where
  set_all-Covers :
      (s : Settings) (tracked : List Text) (log : Log)
      → Covers prior log tracked
      → Covers prior (set_all ops s tracked log).log (set_all ops s tracked log).tracked
  unfolding set_all value_in contains
  set_all-Covers [] tracked log h = h
  set_all-Covers ((m, w) ∷ s) tracked log h = elim (Option-cases (ops.set log m w)) [
    | inr (e, f) ↦ rw (f, set_all) h
    | inl f ↦
        rw (f, set_all)
          (set_all-Covers s (m ∷ tracked) (set m w ∷ log) (λ n v k. ground (arith, k, h n v)))
  ]

  reset_all-Covers :
      (allowed : Settings) (ns tracked : List Text) (log : Log)
      → Covers prior log tracked
      → Covers prior
          (reset_all ops allowed ns tracked log).log
          (reset_all ops allowed ns tracked log).tracked
  unfolding reset_all value_in contains
  reset_all-Covers allowed [] tracked log h = h
  reset_all-Covers allowed (m ∷ ns) tracked log h =
      elim (Bool-cases (contains (names_of allowed) m)) [
        | inl a ↦ rw a (reset_all-Covers allowed ns tracked log h)
        | inr a ↦ elim (Option-cases (ops.reset log m)) [
          | inr (e, f) ↦ rw (a, f) h
          | inl f ↦
              rw (a, f)
                (reset_all-Covers allowed ns (forget tracked m) (reset m ∷ log)
                  (λ n v k. ground (arith, k, h n v, contains-forget tracked m n)))
        ]
      ]

  after_set-Covers :
      (allowed : Settings) (managed : List Text) (p : Progress) (o : Option CallError)
      → Covers prior p.log p.tracked
      → Covers prior
          (after_set ops allowed managed p o).log
          (after_set ops allowed managed p o).tracked
  after_set-Covers allowed managed p (some e) h = h
  after_set-Covers allowed managed p none h = reset_all-Covers allowed managed p.tracked p.log h

  apply_allowed-Covers :
      (allowed : Settings) (managed : List Text) (log : Log)
      → Covers prior log managed
      → Covers prior
          (apply_allowed ops allowed managed log).log
          (apply_allowed ops allowed managed log).tracked
  unfolding apply_allowed
  apply_allowed-Covers allowed managed log h =
      let p = set_all ops (in_order allowed) managed log in
      after_set-Covers allowed managed p p.error (set_all-Covers (in_order allowed) managed log h)

  sorted-Covers :
      (log : Log) (tracked : List Text)
      → Covers prior log tracked
      → Covers prior log (sorted_keys tracked)
  sorted-Covers log tracked h n v k =
      contains-compact (sort tracked) n ∙ contains-sort tracked n ∙ h n v k

  judged-Covers :
      (r : Result CallError SortedOut) (managed : List Text) (log : Log)
      → Covers prior log managed
      → Covers prior (apply_judged ops managed log r).log (apply_judged ops managed log r).after
  unfolding apply_judged
  judged-Covers (err e) managed log h = h
  judged-Covers (ok (allowed, refused)) managed log h =
      let p = apply_allowed ops allowed managed log in
      sorted-Covers p.log p.tracked (apply_allowed-Covers allowed managed log h)

  -- In every branch, errors included, every setting of the target is in the names that
  -- `applySettings` returns, when those it began with held every setting of the target: a setting
  -- that was applied is not forgotten.
  pub apply_settings-Covers :
      (contexts : Contexts) (policy : Policy) (desired : Settings) (managed : List Text) (log : Log)
      → Covers prior log managed
      → Covers prior
          (apply_settings contexts ops policy desired managed log).log
          (apply_settings contexts ops policy desired managed log).after
  unfolding apply_settings
  apply_settings-Covers contexts policy desired managed log h =
      judged-Covers (allowed_settings contexts policy (in_order desired)) managed log h
