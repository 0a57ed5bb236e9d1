-- ===== src/Text/Sort/Extensional.antt =====
-- A strictly sorted list is determined by its elements.
use pgop.Prelude.{
  true, false, List, [], ◌∷◌, ◌≡◌, refl, sym, ◌∙◌, ap₂, arith, ◌==◌, All, All-map, contains,
  of_contains, Bool-cases, inl, inr, ==-refl,
}
use pgop.Text.Base.{Text, text_eq, text_beq_iff}
use pgop.Text.Sort.{IsStrict}
use pgop.Text.Sort.Order.{text_lt, text_lt_irrefl, text_lt_trans, text_lt_total}

abbrev pub SameElements : List Text → List Text → Type 0
SameElements xs ys = (a : Text) → contains xs a ≡ contains ys a

-- What is below every element is no element.
above-not-contains :
    (x : Text) (xs : List Text) → All (λ z. text_lt x z ≡ true) xs → contains xs x ≡ false
above-not-contains x xs h = elim (Bool-cases (contains xs x)) [
  | inl e ↦ cc (of_contains (λ z. text_lt x z ≡ true) xs x h e, text_lt_irrefl x)
  | inr e ↦ e
]

head_lt_absurd :
    (x y : Text) (xs ys : List Text)
    → All (λ z. text_lt y z ≡ true) ys
    → SameElements (x ∷ xs) (y ∷ ys)
    → text_lt x y ≡ true
    → ⊥
unfolding contains
head_lt_absurd x y xs ys b same h =
    let here : contains (x ∷ xs) x ≡ true = ground (arith, text_beq_iff x x) in
    let gone : contains (y ∷ ys) x ≡ false =
      above-not-contains x (y ∷ ys) (h, All-map (λ z k. text_lt_trans x y z h k) ys b) in
    cc (here, gone, same x)

tails :
    (x y : Text) (xs ys : List Text)
    → x ≡ y
    → All (λ z. text_lt x z ≡ true) xs
    → All (λ z. text_lt y z ≡ true) ys
    → SameElements (x ∷ xs) (y ∷ ys)
    → SameElements xs ys
unfolding contains
tails x y xs ys e b c same a = elim (Bool-cases (x == a)) [
  | inl k ↦
      let p : x ≡ a = (text_beq_iff x a).0 k in
      (rw p at (above-not-contains x xs b)) ∙ sym (rw (sym e ∙ p) at (above-not-contains y ys c))
  | inr k ↦ ground (arith, same a, e)
]

pub IsStrict-ext : (xs ys : List Text) → IsStrict xs → IsStrict ys → SameElements xs ys → xs ≡ ys
unfolding contains
IsStrict-ext [] [] h k same = refl
IsStrict-ext [] (y ∷ ys) h k same = cc (same y, ==-refl y)
IsStrict-ext (x ∷ xs) [] h k same = cc (same x, ==-refl x)
IsStrict-ext (x ∷ xs) (y ∷ ys) (b, h) (c, k) same = elim (Bool-cases (text_lt x y)) [
  | inl lt ↦ absurd (head_lt_absurd x y xs ys c same lt)
  | inr ge ↦ elim (Bool-cases (text_lt y x)) [
    | inl lt ↦ absurd (head_lt_absurd y x ys xs b (λ a. sym (same a)) lt)
    | inr ge' ↦
        let e = text_lt_total x y ge ge' in
        ap₂ (λ (z : Text) (zs : List Text). z ∷ zs) e
          (IsStrict-ext xs ys h k (tails x y xs ys e b c same))
  ]
]
