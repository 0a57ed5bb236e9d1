-- ===== src/Text/Sort.antt =====
-- slices.Sort and slices.Compact on strings, and the sets that sorted lists stand for.
pub mod Order
pub mod Extensional
use pgop.Prelude.{
  ℕ, Bool, true, false, ◌||◌, List, [], ◌∷◌, ◌++◌, ◌≡◌, refl, ◌∙◌, sym, arith, ◌==◌, Eq, nat_beq,
  ltb, leb, if◌then◌else◌, All, All-map, contains, contains-append, of_contains, Bool-cases, inl,
  inr, All-of_contains, not,
}
use pgop.Text.Base.{Text, text_beq_iff, text_eq}
use pgop.Text.Sort.Order.{text_lt, text_lt_irrefl, text_lt_trans, text_lt_total, text_ge_trans}

insert : Text → List Text → List Text
insert x [] = x ∷ []
insert x (y ∷ ys) = let rest = insert x ys in if text_lt y x then y ∷ rest else x ∷ y ∷ ys

unfoldable pub sort : List Text → List Text
unfolding insert text_lt
sort [] = []
sort (x ∷ xs) = insert x (sort xs)

unfoldable pub compact : List Text → List Text
compact [] = []
compact (x ∷ []) = x ∷ []
compact (x ∷ y ∷ ys) = let rest = compact (y ∷ ys) in if x == y then rest else x ∷ rest

-- No element stands before a smaller one.
abbrev IsSorted : List Text → Type 0
IsSorted [] = Unit
IsSorted (x ∷ xs) = All (λ y. text_lt y x ≡ false) xs × IsSorted xs

-- Each element stands before larger ones only: sorted, with no duplicate.
abbrev pub IsStrict : List Text → Type 0
IsStrict [] = Unit
IsStrict (x ∷ xs) = All (λ y. text_lt x y ≡ true) xs × IsStrict xs

insert-All : (P : Text → Type 0) (x : Text) (ys : List Text) → P x → All P ys → All P (insert x ys)
unfolding insert
insert-All P x [] p h = (p, tt)
insert-All P x (y ∷ ys) p (q, h) = elim (Bool-cases (text_lt y x)) [
  | inl e ↦ rw e (q, insert-All P x ys p h)
  | inr e ↦ rw e (p, (q, h))
]

insert-IsSorted : (x : Text) (ys : List Text) → IsSorted ys → IsSorted (insert x ys)
unfolding insert
insert-IsSorted x [] h = (tt, tt)
insert-IsSorted x (y ∷ ys) (b, h) = elim (Bool-cases (text_lt y x)) [
  | inl e ↦
      rw e (insert-All (λ z. text_lt z y ≡ false) x ys (lt_asymm y x e) b, insert-IsSorted x ys h)
  | inr e ↦ rw e ((e, All-map (λ z k. text_ge_trans x y z e k) ys b), (b, h))
]
  where
    lt_asymm : (a b : Text) → text_lt a b ≡ true → text_lt b a ≡ false
    lt_asymm a b h = elim (Bool-cases (text_lt b a)) [
      | inl k ↦ cc (text_lt_trans a b a h k, text_lt_irrefl a)
      | inr k ↦ k
    ]

sort-IsSorted : (xs : List Text) → IsSorted (sort xs)
unfolding sort
sort-IsSorted [] = tt
sort-IsSorted (x ∷ xs) = insert-IsSorted x (sort xs) (sort-IsSorted xs)

contains-insert :
    (x : Text) (ys : List Text) (a : Text) → contains (insert x ys) a ≡ (x == a || contains ys a)
unfolding insert contains
contains-insert x [] a = refl
contains-insert x (y ∷ ys) a = ground (arith, contains-insert x ys a)

pub contains-sort : (xs : List Text) (a : Text) → contains (sort xs) a ≡ contains xs a
unfolding sort contains
contains-sort [] a = refl
contains-sort (x ∷ xs) a = ground (arith, contains-insert x (sort xs) a, contains-sort xs a)

pub contains-compact : (xs : List Text) (a : Text) → contains (compact xs) a ≡ contains xs a
unfolding compact contains
contains-compact [] a = refl
contains-compact (x ∷ []) a = refl
contains-compact (x ∷ y ∷ ys) a = ground (arith, contains-compact (y ∷ ys) a, text_beq_iff x y)

compact-All : (P : Text → Type 0) (xs : List Text) → All P xs → All P (compact xs)
compact-All P xs h =
    All-of_contains P (compact xs) (λ a m. of_contains P xs a h (sym (contains-compact xs a) ∙ m))

below_head :
    (x y : Text) (ys : List Text)
    → (x == y) ≡ false
    → IsSorted (x ∷ y ∷ ys)
    → All (λ z. text_lt x z ≡ true) (y ∷ ys)
below_head x y ys ne ((ge, _), (b, _)) = (first, All-map later ys b)
  where
    first : text_lt x y ≡ true
    first = elim (Bool-cases (text_lt x y)) [
      | inl e ↦ e
      | inr e ↦ cc ((text_beq_iff x y).1 (text_lt_total x y e ge), ne)
    ]

    later : (z : Text) → text_lt z y ≡ false → text_lt x z ≡ true
    later z k = elim (Bool-cases (text_lt x z)) [
      | inl e ↦ e
      | inr e ↦ cc (text_ge_trans y z x k e, first)
    ]

compact-IsStrict : (xs : List Text) → IsSorted xs → IsStrict (compact xs)
unfolding compact
compact-IsStrict [] h = tt
compact-IsStrict (x ∷ []) h = (tt, tt)
compact-IsStrict (x ∷ y ∷ ys) (b, h) = elim (Bool-cases (x == y)) [
  | inl e ↦ rw e (compact-IsStrict (y ∷ ys) h)
  | inr e ↦ rw e (
    compact-All (λ z. text_lt x z ≡ true) (y ∷ ys) (below_head x y ys e (b, h)),
    compact-IsStrict (y ∷ ys) h,
  )
]

pub compact-sort-IsStrict : (xs : List Text) → IsStrict (compact (sort xs))
compact-sort-IsStrict xs = compact-IsStrict (sort xs) (sort-IsSorted xs)
