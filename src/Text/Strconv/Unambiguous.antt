-- ===== src/Text/Strconv/Unambiguous.antt =====
-- A quoted text is read back in only one way, whatever follows it; decimal digits give the number.
use pgop.Prelude.{
  false, is_empty, ◌≤◌, ℕ, zero, suc, ◌+◌, ◌-◌, ◌*◌, ◌/◌, ◌%◌, ◌<◌, [], ◌∷◌, ◌++◌, ◌≡◌, ◌≢◌, refl,
  sym, ◌∙◌, ap, ap₂, arith, ltb, ◌==◌, nat_eq, if◌then◌else◌, Option, none, some, append_assoc,
  Bool-cases, inl, inr, All, All-append, All-map,
}
use pgop.Text.Base.{Text}
use pgop.Text.Strconv.{escape_rune, quote_rest, quote, decimal, format_int}

hex_value : ℕ → ℕ
hex_value d = if ltb d 58 then d - b'0' else d - 87

unescape_hex : Text → Option (ℕ × Text)
unfolding hex_value
unescape_hex (h ∷ l ∷ cs) = some (hex_value h * 16 + hex_value l, cs)
unescape_hex _ = none

named_control : ℕ → ℕ
named_control d =
    if d == b'a'
    then 7
    else if d == b'b'
    then 8
    else if d == b't'
    then 9
    else if d == b'n'
    then 10
    else if d == b'v'
    then 11
    else if d == b'f'
    then 12
    else if d == b'r'
    then 13
    else d

-- What stands behind a backslash.
unescape_after : Text → Option (ℕ × Text)
unfolding unescape_hex named_control
unescape_after [] = none
unescape_after (d ∷ cs) = if d == b'x' then unescape_hex cs else some (named_control d, cs)

-- The character that a text in quotes begins with, and what follows it.
unescape_rune : Text → Option (ℕ × Text)
unfolding unescape_after
unescape_rune [] = none
unescape_rune (c ∷ cs) = if c == b'\\' then unescape_after cs else some (c, cs)

unescape-escape : (c : ℕ) (rest : Text) → unescape_rune (escape_rune c ++ rest) ≡ some (c, rest)
unfolding escape_rune unescape_rune
unescape-escape c rest = ground arith

escape-ne-quote : (c : ℕ) (t u : Text) → escape_rune c ++ t ≢ b'"' ∷ u
unfolding escape_rune
escape-ne-quote c t u h = ground arith

some_pair :
    (c d : ℕ) (x y : Text)
    → ◌≡◌ {A = Option (ℕ × Text)} (some (c, x)) (some (d, y))
    → (c ≡ d) × (x ≡ y)
some_pair c d x y h = (cc, cc)

escape_unambiguous :
    (c d : ℕ) (x y : Text) → escape_rune c ++ x ≡ escape_rune d ++ y → (c ≡ d) × (x ≡ y)
escape_unambiguous c d x y h =
    some_pair c d x y (sym (unescape-escape c x) ∙ ap unescape_rune h ∙ unescape-escape d y)

quote_rest_unambiguous :
    (a b r s : Text) → quote_rest a ++ r ≡ quote_rest b ++ s → (a ≡ b) × (r ≡ s)
unfolding quote_rest
quote_rest_unambiguous [] [] r s h = (refl, cc)
quote_rest_unambiguous [] (d ∷ ds) r s h = absurd (
    escape-ne-quote d (quote_rest ds ++ s) r
      (sym (h ∙ append_assoc (escape_rune d) (quote_rest ds) s)))
quote_rest_unambiguous (c ∷ cs) [] r s h = absurd (
    escape-ne-quote c (quote_rest cs ++ r) s
      (sym (append_assoc (escape_rune c) (quote_rest cs) r) ∙ h))
quote_rest_unambiguous (c ∷ cs) (d ∷ ds) r s h =
    let (first, later) = escape_unambiguous c d (quote_rest cs ++ r) (quote_rest ds ++ s) (
      sym (append_assoc (escape_rune c) (quote_rest cs) r)
      ∙ h
      ∙ append_assoc (escape_rune d) (quote_rest ds) s) in
    let (same, rest) = quote_rest_unambiguous cs ds r s later in
    (ap₂ (λ (x : ℕ) (xs : Text). x ∷ xs) first same, rest)

-- Two quoted texts that begin the same text are one.
pub quote_unambiguous : (a b r s : Text) → quote a ++ r ≡ quote b ++ s → (a ≡ b) × (r ≡ s)
unfolding quote
quote_unambiguous a b r s h = quote_rest_unambiguous a b r s (cc)

unfoldable pub value_from : ℕ → Text → ℕ
value_from acc [] = acc
value_from acc (d ∷ ds) = value_from (acc * 10 + (d - b'0')) ds

value_from-append :
    (acc : ℕ) (xs ys : Text) → value_from acc (xs ++ ys) ≡ value_from (value_from acc xs) ys
unfolding value_from
value_from-append acc [] ys = refl
value_from-append acc (x ∷ xs) ys = value_from-append (acc * 10 + (x - b'0')) xs ys

value-decimal : (f n : ℕ) → n < f → value_from 0 (decimal f n) ≡ n
unfolding decimal value_from
value-decimal zero n h = elim h [ ]
value-decimal (suc f) n h = elim (Bool-cases (ltb n 10)) [
  | inl e ↦ rw e (ground arith)
  | inr e ↦ rw e (
      value_from-append 0 (decimal f (n / 10)) ((n % 10 + b'0') ∷ [])
      ∙ (rw (value-decimal f (n / 10) (ground arith)) (ground arith)))
]

abbrev IsDigit : ℕ → Type 0
IsDigit d = d < 58

decimal-IsDigit : (f n : ℕ) → All IsDigit (decimal f n)
unfolding decimal
decimal-IsDigit zero n = tt
decimal-IsDigit (suc f) n = elim (Bool-cases (ltb n 10)) [
  | inl e ↦ rw e (ground arith, tt)
  | inr e ↦ rw e (
      All-append IsDigit (decimal f (n / 10)) ((n % 10 + b'0') ∷ []) (decimal-IsDigit f (n / 10))
        (ground arith, tt))
]

-- A text whose characters are below a separator ends at the first one.
pub split_unambiguous :
    (sep : ℕ) (a b r s : Text)
    → All (λ c. c ≢ sep) a
    → All (λ c. c ≢ sep) b
    → a ++ sep ∷ r ≡ b ++ sep ∷ s
    → (a ≡ b) × (r ≡ s)
split_unambiguous sep [] [] r s h k e = (refl, cc)
split_unambiguous sep [] (d ∷ ds) r s h k e = absurd (k.0 (cc))
split_unambiguous sep (c ∷ cs) [] r s h k e = absurd (h.0 (cc))
split_unambiguous sep (c ∷ cs) (d ∷ ds) r s h k e =
    let (same, rest) = split_unambiguous sep cs ds r s h.1 k.1 (cc) in
    (ap₂ (λ (x : ℕ) (xs : Text). x ∷ xs) (cc) same, rest)

pub format_int-no_bar : (n : ℕ) → All (λ c. c ≢ b'|') (format_int n)
unfolding format_int
format_int-no_bar n = All-map (λ c h. omega arith) (decimal (suc n) n) (decimal-IsDigit (suc n) n)

pub format_int-injective : (n m : ℕ) → format_int n ≡ format_int m → n ≡ m
unfolding format_int
format_int-injective n m h =
    sym (value-decimal (suc n) n (omega arith))
    ∙ ap (value_from 0) h
    ∙ value-decimal (suc m) m (omega arith)

-- The value of a decimal is the number.
pub value_from-format_int : (n : ℕ) → value_from 0 (format_int n) ≡ n
unfolding format_int
value_from-format_int n = value-decimal (suc n) n (omega arith)

decimal-is_digit : (f n : ℕ) → All (λ d. (48 ≤ d) × (d ≤ 57)) (decimal f n)
unfolding decimal
decimal-is_digit zero n = tt
decimal-is_digit (suc f) n = elim (Bool-cases (ltb n 10)) [
  | inl e ↦ rw e ((ground arith, ground arith), tt)
  | inr e ↦ rw e (
      All-append (λ d. (48 ≤ d) × (d ≤ 57)) (decimal f (n / 10)) ((n % 10 + b'0') ∷ [])
        (decimal-is_digit f (n / 10)) ((ground arith, ground arith), tt))
]

pub format_int-is_digit : (n : ℕ) → All (λ d. (48 ≤ d) × (d ≤ 57)) (format_int n)
unfolding format_int
format_int-is_digit n = decimal-is_digit (suc n) n

snoc-is_empty : (a : Text) (c : ℕ) → is_empty (a ++ c ∷ []) ≡ false
snoc-is_empty [] c = refl
snoc-is_empty (x ∷ xs) c = refl

pub format_int-is_empty : (n : ℕ) → is_empty (format_int n) ≡ false
unfolding format_int decimal
format_int-is_empty n = elim (Bool-cases (ltb n 10)) [
  | inl e ↦ rw e refl
  | inr e ↦ rw e (snoc-is_empty (decimal n (n / 10)) (n % 10 + b'0'))
]
