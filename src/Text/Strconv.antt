-- ===== src/Text/Strconv.antt =====
-- What the program uses of the standard library's `strconv`: `Quote` and `FormatInt`. Characters
-- above ASCII are taken as printable, so `Quote` keeps them.
pub mod Unambiguous
use pgop.Prelude.{
  ℕ, zero, suc, ◌+◌, ◌/◌, ◌%◌, ◌&&◌, ◌||◌, [], ◌∷◌, ◌++◌, ltb, ◌==◌, nat_eq, if◌then◌else◌,
}
use pgop.Text.Base.{Text}

-- One digit of `\x`.
hex_digit : ℕ → ℕ
hex_digit n = if ltb n 10 then n + b'0' else n + 87

-- The letter of a control character that Go names: \a \b \t \n \v \f \r, else 0.
control_letter : ℕ → ℕ
control_letter c =
    if c == 7
    then b'a'
    else if c == 8
    then b'b'
    else if c == 9
    then b't'
    else if c == 10
    then b'n'
    else if c == 11
    then b'v'
    else if c == 12
    then b'f'
    else if c == 13
    then b'r'
    else 0

escape_rune : ℕ → Text
unfolding hex_digit control_letter
escape_rune c =
    if c == b'"' || c == b'\\'
    then b'\\' ∷ c ∷ []
    else if ltb 6 c && ltb c 14
    then b'\\' ∷ control_letter c ∷ []
    else if ltb c 32 || c == 127
    then b'\\' ∷ b'x' ∷ hex_digit (c / 16) ∷ hex_digit (c % 16) ∷ []
    else c ∷ []

-- The text with its closing quote.
quote_rest : Text → Text
unfolding escape_rune
quote_rest [] = b'"' ∷ []
quote_rest (c ∷ cs) = escape_rune c ++ quote_rest cs

-- strconv.Quote
unfoldable pub quote : Text → Text
unfolding quote_rest
quote s = b'"' ∷ quote_rest s

-- The decimal digits of a number, with one round of fuel for each digit.
decimal : ℕ → ℕ → Text
decimal zero n = []
decimal (suc f) n =
    let rest = decimal f (n / 10) ++ (n % 10 + b'0') ∷ [] in
    if ltb n 10 then (n + b'0') ∷ [] else rest

-- strconv.FormatInt(n, 10) for a number that is not negative.
unfoldable pub format_int : ℕ → Text
unfolding decimal
format_int n = decimal (suc n) n
