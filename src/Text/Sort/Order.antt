-- ===== src/Text/Sort/Order.antt =====
-- The order of Go strings, code point by code point.
use pgop.Prelude.{Bool, true, false, ◌&&◌, ◌||◌, [], ◌∷◌, ◌≡◌, refl, arith, ltb, nat_beq}
use pgop.Text.Base.{Text}

unfoldable pub text_lt : Text → Text → Bool
text_lt [] [] = false
text_lt [] (y ∷ ys) = true
text_lt (x ∷ xs) [] = false
text_lt (x ∷ xs) (y ∷ ys) = ltb x y || (nat_beq x y && text_lt xs ys)

pub text_lt_irrefl : (a : Text) → text_lt a a ≡ false
unfolding text_lt
text_lt_irrefl [] = refl
text_lt_irrefl (x ∷ xs) = ground (arith, text_lt_irrefl xs)

pub text_lt_trans : (a b c : Text) → text_lt a b ≡ true → text_lt b c ≡ true → text_lt a c ≡ true
unfolding text_lt
text_lt_trans [] [] c h k = cc
text_lt_trans [] (y ∷ ys) [] h k = cc
text_lt_trans [] (y ∷ ys) (z ∷ zs) h k = refl
text_lt_trans (x ∷ xs) [] c h k = cc
text_lt_trans (x ∷ xs) (y ∷ ys) [] h k = cc
text_lt_trans (x ∷ xs) (y ∷ ys) (z ∷ zs) h k = ground (arith, text_lt_trans xs ys zs)

pub text_ge_trans : (a b c : Text) → text_lt b a ≡ false → text_lt c b ≡ false → text_lt c a ≡ false
unfolding text_lt
text_ge_trans [] b [] h k = refl
text_ge_trans [] b (z ∷ zs) h k = refl
text_ge_trans (x ∷ xs) [] c h k = cc
text_ge_trans (x ∷ xs) (y ∷ ys) [] h k = cc
text_ge_trans (x ∷ xs) (y ∷ ys) (z ∷ zs) h k = ground (arith, text_ge_trans xs ys zs)

pub text_lt_total : (a b : Text) → text_lt a b ≡ false → text_lt b a ≡ false → a ≡ b
unfolding text_lt
text_lt_total [] [] h k = refl
text_lt_total [] (y ∷ ys) h k = cc
text_lt_total (x ∷ xs) [] h k = cc
text_lt_total (x ∷ xs) (y ∷ ys) h k = ground (arith, text_lt_total xs ys)
