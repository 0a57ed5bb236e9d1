-- ===== src/Grants/Engine/Triple.antt =====
-- What code that makes calls leaves behind: from the calls before, the result and the calls after.
use pgop.Prelude.{Bool, true, false, ◌≡◌, refl, if◌then◌else◌}
use pgop.Grants.Engine.{Log, M, ◌>>=◌, pure}

pub record Triple {A : Type 0} (before : Log → Type 0) (m : M A) (after : A → Log → Type 0)
    : Type 0 where
  pub at : (log : Log) → before log → after (m log).0 (m log).1

module _ {A : Type 0} {before : Log → Type 0} {after : A → Log → Type 0} where
  pub Triple-bind :
      {B : Type 0} {later : B → Log → Type 0} (m : M A) (f : A → M B)
      → Triple before m after
      → ((a : A) → Triple (after a) (f a) later)
      → Triple before (m >>= f) later
  unfolding ◌>>=◌
  Triple-bind m f tm tf = record { at = λ log h. (tf (m log).0).at (m log).1 (tm.at log h) }

  pub Triple-if :
      (b : Bool) (m n : M A)
      → (b ≡ true → Triple before m after)
      → (b ≡ false → Triple before n after)
      → Triple before (if b then m else n) after
  Triple-if true m n tm tn = tm refl
  Triple-if false m n tm tn = tn refl

  pub Triple-pure :
      (a : A) → ((log : Log) → before log → after a log) → Triple before (pure a) after
  unfolding pure
  Triple-pure a h = record { at = h }

-- A fact that does not speak of the calls may be used before the code is entered.
pub Triple-given :
    {A : Type 0} {before : Log → Type 0} {fact : Type 0} {m : M A} {after : A → Log → Type 0}
    → (fact → Triple before m after)
    → Triple (λ log. before log × fact) m after
Triple-given t = record { at = λ log h. (t h.1).at log h.0 }

pub Triple-after :
    {A : Type 0} {before : Log → Type 0} {m : M A} {after later : A → Log → Type 0}
    → ((a : A) (log : Log) → after a log → later a log)
    → Triple before m after
    → Triple before m later
Triple-after f t = record { at = λ log h. f _ _ (t.at log h) }
