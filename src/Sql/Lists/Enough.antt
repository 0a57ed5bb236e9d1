-- ===== src/Sql/Lists/Enough.antt =====
-- The length of a list is fuel enough for its elements.
use pgop.Prelude.{
  ℕ, ◌≤◌, ◌<◌, Bool, true, false, List, [], ◌∷◌, ◌++◌, ◌==◌, nat_eq, ◌≡◌, ◌≢◌, refl, any, ◌||◌,
  Option, none, some, Result, ok, err, length, arith, if_both, ◌∙◌,
}
use pgop.Text.{Text}
use pgop.Sql.Privileges.{SqlError}
use pgop.Sql.Lists.{
  skip_blanks, quoted_element, word_element, trim_right, quoted_or_error, word_or_error,
  next_element, after_element, split_elements, or_empty_error, split_identifier_list, is_blank,
  onto,
}

skip_blanks-length : (s : Text) → length (skip_blanks s) ≤ length s
unfolding skip_blanks
skip_blanks-length [] = ground arith
skip_blanks-length (c ∷ cs) = ground (arith, skip_blanks-length cs)

-- The rest is no longer than the text.
abbrev Shorter : ℕ → Option (Text × Text) → Type 0
Shorter n none = Unit
Shorter n (some (element, rest)) = length rest ≤ n

onto-Shorter : (c n : ℕ) (o : Option (Text × Text)) → Shorter n o → Shorter (ℕ.suc n) (onto c o)
onto-Shorter c n none h = tt
onto-Shorter c n (some (element, rest)) h = ground (arith, h)

Shorter-suc : (n : ℕ) (o : Option (Text × Text)) → Shorter n o → Shorter (ℕ.suc n) o
Shorter-suc n none h = tt
Shorter-suc n (some (element, rest)) h = ground (arith, h)

quoted_element-Shorter : (b : Bool) (s : Text) → Shorter (length s) (quoted_element b s)
unfolding quoted_element
quoted_element-Shorter false [] = tt
quoted_element-Shorter true [] = ground arith
quoted_element-Shorter false (c ∷ cs) =
    let rest = quoted_element-Shorter (c == b'"') cs in
    if_both (Shorter (ℕ.suc (length cs))) (c == b'"') (Shorter-suc (length cs) _ rest)
      (onto-Shorter c (length cs) _ rest)
quoted_element-Shorter true (c ∷ cs) =
    if_both (Shorter (ℕ.suc (length cs))) (c == b'"')
      (onto-Shorter b'"' (length cs) _ (quoted_element-Shorter false cs)) (ground arith)

word_element-length : (s : Text) → length (word_element s).1 ≤ length s
unfolding word_element
word_element-length [] = ground arith
word_element-length (c ∷ cs) = ground (arith, word_element-length cs)

-- What is left behind an element is no longer than the text.
abbrev Leaves : ℕ → Result SqlError (Text × Text) → Type 0
Leaves n (err e) = Unit
Leaves n (ok (element, rest)) = length rest ≤ n

quoted_or_error-Leaves :
    (n : ℕ) (o : Option (Text × Text)) → Shorter n o → Leaves n (quoted_or_error o)
quoted_or_error-Leaves n none h = tt
quoted_or_error-Leaves n (some (element, rest)) h = ground (arith, h, skip_blanks-length rest)

word_or_error-Leaves : (n : ℕ) (w : Text × Text) → length w.1 ≤ n → Leaves n (word_or_error w)
word_or_error-Leaves n (w, rest) h =
    if_both (Leaves n) (any (λ c. is_blank c || c == b'"') (trim_right w)) tt h

next_element-Leaves : (s : Text) → Leaves (length s) (next_element s)
unfolding next_element
next_element-Leaves [] = ground arith
next_element-Leaves (c ∷ cs) =
    if_both (Leaves (ℕ.suc (length cs))) (c == b'"')
      (quoted_or_error-Leaves _ _ (Shorter-suc (length cs) _ (quoted_element-Shorter false cs)))
      (word_or_error-Leaves _ (word_element (c ∷ cs)) (word_element-length (c ∷ cs)))

after_element-some :
    (n : ℕ) (out : List Text) (next : List Text → Text → Option (Result SqlError (List Text)))
    (r : Result SqlError (Text × Text))
    → Leaves n r
    → ((out' : List Text) (rest : Text) → length rest < n → next out' rest ≢ none)
    → after_element out next r ≢ none
after_element-some n out next (err e) h k = λ x. absurd (ground (arith, x))
after_element-some n out next (ok ([], rest)) h k = λ x. absurd (ground (arith, x))
after_element-some n out next (ok (c ∷ cs, [])) h k = λ x. absurd (ground (arith, x))
after_element-some n out next (ok (c ∷ cs, d ∷ rest)) h k =
    if_both (λ o. o ≢ none) (d == b',') (k _ rest (ground (arith, h)))
      (λ x. absurd (ground (arith, x)))

split_elements-some :
    (fuel : ℕ) (out : List Text) (s : Text) → length s < fuel → split_elements fuel out s ≢ none
unfolding split_elements
split_elements-some ℕ.zero out s h = absurd (ground (arith, h))
split_elements-some (ℕ.suc fuel) out s h =
    after_element-some (length (skip_blanks s)) out (split_elements fuel) _
      (next_element-Leaves (skip_blanks s))
      (λ out' rest shorter.
        split_elements-some fuel out' rest (ground (arith, h, shorter, skip_blanks-length s)))

after_element-agree :
    (n : ℕ) (out : List Text) (f g : List Text → Text → Option (Result SqlError (List Text)))
    (r : Result SqlError (Text × Text))
    → Leaves n r
    → ((out' : List Text) (rest : Text) → length rest < n → f out' rest ≡ g out' rest)
    → after_element out f r ≡ after_element out g r
after_element-agree n out f g (err e) h k = refl
after_element-agree n out f g (ok ([], rest)) h k = refl
after_element-agree n out f g (ok (c ∷ cs, [])) h k = refl
after_element-agree n out f g (ok (c ∷ cs, d ∷ rest)) h k =
    rw (k (out ++ (c ∷ cs) ∷ []) rest (ground (arith, h))) refl

split_elements-agree :
    (f g : ℕ) (out : List Text) (s : Text)
    → length s < f
    → length s < g
    → split_elements f out s ≡ split_elements g out s
unfolding split_elements
split_elements-agree ℕ.zero g out s h k = absurd (ground (arith, h))
split_elements-agree (ℕ.suc f) ℕ.zero out s h k = absurd (ground (arith, k))
split_elements-agree (ℕ.suc f) (ℕ.suc g) out s h k =
    after_element-agree (length (skip_blanks s)) out (split_elements f) (split_elements g) _
      (next_element-Leaves (skip_blanks s))
      (λ out' rest shorter.
        split_elements-agree f g out' rest (ground (arith, h, shorter, skip_blanks-length s))
          (ground (arith, k, shorter, skip_blanks-length s)))

-- The loop over the elements ends: with any fuel above the length of the text it returns, and what it
-- returns is the result of `splitIdentifierList`.
pub split_elements-ends :
    (s : Text) (fuel : ℕ)
    → length s < fuel
    → split_elements fuel [] s ≡ some (split_identifier_list s)
unfolding split_identifier_list
split_elements-ends s fuel h =
    split_elements-agree fuel (ℕ.suc (length s)) [] s h (ground arith)
    ∙ returned (split_elements (ℕ.suc (length s)) [] s)
        (split_elements-some (ℕ.suc (length s)) [] s (ground arith))
  where
    returned : (o : Option (Result SqlError (List Text))) → o ≢ none → o ≡ some (or_empty_error o)
    returned none h = absurd (h refl)
    returned (some r) h = refl
