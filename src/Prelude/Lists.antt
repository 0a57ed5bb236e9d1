-- ===== src/Prelude/Lists.antt =====
-- Lists: sizes, membership as a test, and predicates on every element.
use Prim.Native.Nat.{ℕ, suc}
use mathlib.Core.Path.{◌≡◌, refl}
use mathlib.Core.Logic.{inl, inr}
use mathlib.Core.Bool.{Bool, true, false, ◌||◌}
use mathlib.Core.List.{List, [], ◌∷◌, ◌++◌}
use native.Mathlib.Omega.{arith}
use pgop.Prelude.Tests.{Eq, ◌==◌, Bool-cases}

module _ {ℓ} {A : Type ℓ} where
  abbrev pub length : List A → ℕ
  length [] = 0
  length (x ∷ xs) = suc (length xs)

  abbrev pub is_empty : List A → Bool
  is_empty [] = true
  is_empty (x ∷ xs) = false

  -- Every element holds.
  abbrev pub All {κ} : (A → Type κ) → List A → Type κ
  All P [] = Unit
  All P (x ∷ xs) = P x × All P xs

  pub All-append {κ} : (P : A → Type κ) (xs ys : List A) → All P xs → All P ys → All P (xs ++ ys)
  All-append P [] ys h k = k
  All-append P (x ∷ xs) ys (p, h) k = (p, All-append P xs ys h k)

  pub All-map {κ μ} :
      {P : A → Type κ} {Q : A → Type μ}
      → ((x : A) → P x → Q x)
      → (xs : List A) → All P xs
      → All Q xs
  All-map f [] h = tt
  All-map f (x ∷ xs) (p, h) = (f x p, All-map f xs h)

  -- slices.ContainsFunc
  abbrev pub any : (A → Bool) → List A → Bool
  any p [] = false
  any p (x ∷ xs) = p x || any p xs

module _ {ℓ} {A : Type ℓ} ⦃e : Eq A⦄ where
  -- slices.Contains
  unfoldable pub contains : List A → A → Bool
  contains [] a = false
  contains (x ∷ xs) a = x == a || contains xs a

  pub contains-append :
      (xs ys : List A) (a : A) → contains (xs ++ ys) a ≡ (contains xs a || contains ys a)
  unfolding contains
  contains-append [] ys a = refl
  contains-append (x ∷ xs) ys a = ground (arith, contains-append xs ys a)

  pub All-of_contains {κ} :
      (P : A → Type κ) (xs : List A) → ((a : A) → contains xs a ≡ true → P a) → All P xs
  unfolding contains
  All-of_contains P [] h = tt
  All-of_contains P (x ∷ xs) h =
      (h x (ground (arith, e.beq_iff x x)), All-of_contains P xs (λ a m. h a (ground arith)))

  pub of_contains {κ} :
      (P : A → Type κ) (xs : List A) (a : A) → All P xs → contains xs a ≡ true → P a
  unfolding contains
  of_contains P [] a h m = cc
  of_contains P (x ∷ xs) a (p, h) m = elim (Bool-cases (x == a)) [
    | inl same ↦ rw (← (e.beq_iff x a).0 same) p
    | inr other ↦ of_contains P xs a h (ground arith)
  ]

  pub contains-head : (x : A) (xs : List A) → contains (x ∷ xs) x ≡ true
  unfolding contains
  contains-head x xs = ground (arith, e.beq_iff x x)
