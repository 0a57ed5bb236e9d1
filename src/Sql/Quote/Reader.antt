-- ===== src/Sql/Quote/Reader.antt =====
-- A reader of quoted text, after the lexical rules of PostgreSQL's SQL, of its configuration files
-- and of connection strings. The numeric escapes of those rules are left out: pgop writes none.
use pgop.Prelude.{
  ℕ, Bool, true, false, ◌&&◌, [], ◌∷◌, ◌++◌, ◌≡◌, arith, ◌==◌, nat_eq, ap, if◌then◌else◌, Option,
  none, some, append_assoc, ◌∙◌,
}
use pgop.Text.{Text}

-- Whether two quotes are one quote, whether a backslash escapes, and what it makes of a rune.
pub record Lexicon : Type 0 where
  pub quote : ℕ
  pub doubles : Bool
  pub escapes : Bool
  pub unescape : ℕ → ℕ

pub data Seen : Type 0 where
  nothing_special quote_mark backslash : Seen

abbrev pub Reading : Type 0
Reading = Option (Text × Text)

abbrev pub and_rune : ℕ → Reading → Reading
and_rune c none = none
and_rune c (some (s, rest)) = some (c ∷ s, rest)

abbrev after : Lexicon → ℕ → Seen
after l c =
    if c == l.quote
    then quote_mark
    else if l.escapes && c == b'\\'
    then backslash
    else nothing_special

abbrev emit : Seen → ℕ → Reading → Reading
emit nothing_special c r = and_rune c r
emit quote_mark c r = r
emit backslash c r = r

-- The text up to the closing quote, and what follows that quote.
unfoldable pub read : Lexicon → Seen → Text → Reading
read l nothing_special [] = none
read l nothing_special (c ∷ cs) = emit (after l c) c (read l (after l c) cs)
read l quote_mark [] = some ([], [])
read l quote_mark (c ∷ cs) =
    let rest = read l nothing_special cs in
    if l.doubles && c == l.quote then and_rune c rest else some ([], c ∷ cs)
read l backslash [] = none
read l backslash (c ∷ cs) = and_rune (l.unescape c) (read l nothing_special cs)

-- Text that goes on after a closing quote, and is not taken for a second quote.
unfoldable pub IsOutside : Lexicon → Text → Type 0
IsOutside l [] = true ≡ true
IsOutside l (c ∷ cs) = (l.doubles && c == l.quote) ≡ false

-- Each rune is written as `escape` says.
unfoldable pub escape_all : (ℕ → Text) → Text → Text
escape_all escape [] = []
escape_all escape (c ∷ cs) = escape c ++ escape_all escape cs

-- `escape` writes a rune so that the reader takes it for that rune.
abbrev pub IsReadBack : Lexicon → (ℕ → Text) → Type 0
IsReadBack l escape =
    (c : ℕ) (rest : Text)
    → read l nothing_special (escape c ++ rest) ≡ and_rune c (read l nothing_special rest)

pub read-closing :
    (l : Lexicon) (rest : Text)
    → IsOutside l rest
    → read l nothing_special (l.quote ∷ rest) ≡ some ([], rest)
unfolding read IsOutside
read-closing l [] h = ground arith
read-closing l (c ∷ cs) h = ground (arith, h)

pub read-escape_all :
    (l : Lexicon) (escape : ℕ → Text)
    → IsReadBack l escape
    → (s rest : Text) → IsOutside l rest
    → read l nothing_special (escape_all escape s ++ l.quote ∷ rest) ≡ some (s, rest)
unfolding escape_all
read-escape_all l escape b [] rest h = read-closing l rest h
read-escape_all l escape b (c ∷ s) rest h =
    ap (read l nothing_special) (append_assoc (escape c) (escape_all escape s) (l.quote ∷ rest))
    ∙ b c (escape_all escape s ++ l.quote ∷ rest)
    ∙ ap (and_rune c) (read-escape_all l escape b s rest h)
