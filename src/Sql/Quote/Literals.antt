-- ===== src/Sql/Quote/Literals.antt =====
-- String constants, values of connection strings and values of configuration files read back.
use pgop.Prelude.{
  ℕ, Bool, true, false, ◌||◌, [], ◌∷◌, ◌++◌, ◌≡◌, refl, arith, ◌==◌, nat_eq, ap, if◌then◌else◌,
  some, append_assoc, ◌∙◌, contains, Bool-cases, inl, inr, contains-append,
}
use pgop.Text.{Text}
use pgop.Sql.Quote.{
  replace_all, quote_literal, quote_dsn_value, escape_conf_rune, escape_conf, quote_conf_value,
}
use pgop.Sql.Quote.Reader.{
  nothing_special, read, IsOutside, escape_all, IsReadBack, read-escape_all,
}
use pgop.Sql.Quote.RoundTrip.{
  string_lexicon, dsn_lexicon, control_rune, read_literal, read_value, twice,
  replace_all-escape_all,
}

-- A quote becomes two, a backslash becomes two.
unfoldable literal_rune : ℕ → Text
literal_rune c =
    if c == b'\'' then b'\'' ∷ b'\'' ∷ [] else if c == b'\\' then b'\\' ∷ b'\\' ∷ [] else c ∷ []

replace_all-replace_all :
    (s : Text)
    → replace_all b'\\' b'\\' b'\\' (replace_all b'\'' b'\'' b'\'' s) ≡ escape_all literal_rune s
unfolding replace_all escape_all literal_rune
replace_all-replace_all [] = refl
replace_all-replace_all (c ∷ s) = elim (Bool-cases (c == b'\'')) [
  | inl e ↦ ground (arith, e, replace_all-replace_all s)
  | inr e ↦ elim (Bool-cases (c == b'\\')) [
    | inl f ↦ ground (arith, e, f, replace_all-replace_all s)
    | inr f ↦ ground (arith, e, f, replace_all-replace_all s)
  ]
]

replace_all-plain :
    (s : Text)
    → contains (replace_all b'\'' b'\'' b'\'' s) b'\\' ≡ false
    → replace_all b'\'' b'\'' b'\'' s ≡ escape_all literal_rune s
unfolding replace_all escape_all literal_rune contains
replace_all-plain [] h = refl
replace_all-plain (c ∷ s) h = elim (Bool-cases (c == b'\'')) [
  | inl e ↦ ground (arith, e, replace_all-plain s)
  | inr e ↦ elim (Bool-cases (c == b'\\')) [
    | inl f ↦ ground (arith, e, f, h)
    | inr f ↦ ground (arith, e, f, h, replace_all-plain s)
  ]
]

escaped-IsReadBack : IsReadBack (string_lexicon true) literal_rune
unfolding read literal_rune control_rune
escaped-IsReadBack c rest = elim (Bool-cases (c == b'\'')) [
  | inl e ↦ ground (arith, e)
  | inr e ↦ elim (Bool-cases (c == b'\\')) [
    | inl f ↦ ground (arith, e, f)
    | inr f ↦ ground (arith, e, f)
  ]
]

plain-IsReadBack : IsReadBack (string_lexicon false) (twice b'\'')
unfolding read twice
plain-IsReadBack c rest = elim (Bool-cases (c == b'\'')) [
  | inl e ↦ ground (arith, e)
  | inr e ↦ ground (arith, e)
]

read-plain :
    (escapes : Bool) (s rest : Text)
    → contains (replace_all b'\'' b'\'' b'\'' s) b'\\' ≡ false
    → IsOutside (string_lexicon escapes) rest
    → read
        (string_lexicon escapes)
        nothing_special
        (replace_all b'\'' b'\'' b'\'' s ++ b'\'' ∷ rest)
      ≡ some (s, rest)
read-plain true s rest h n =
    ap (λ t. read (string_lexicon true) nothing_special (t ++ b'\'' ∷ rest)) (replace_all-plain s h)
    ∙ read-escape_all (string_lexicon true) literal_rune escaped-IsReadBack s rest n
read-plain false s rest h n =
    ap (λ t. read (string_lexicon false) nothing_special (t ++ b'\'' ∷ rest))
      (replace_all-escape_all b'\'' s)
    ∙ read-escape_all (string_lexicon false) (twice b'\'') plain-IsReadBack s rest n

-- A string constant, followed by anything but another single quote, reads back as the value,
-- whether the server takes a backslash of an ordinary constant for an escape or not.
pub read_literal-quote_literal :
    (escapes : Bool) (s rest : Text)
    → IsOutside (string_lexicon escapes) rest
    → read_literal escapes (quote_literal s ++ rest) ≡ some (s, rest)
unfolding quote_literal read_literal read_value IsOutside
read_literal-quote_literal escapes s rest h =
    elim (Bool-cases (contains (replace_all b'\'' b'\'' b'\'' s) b'\\')) [
      | inl e ↦ rw e (
          ap (read (string_lexicon true) nothing_special) (
            append_assoc _ (b'\'' ∷ []) rest
            ∙ ap (λ t. t ++ b'\'' ∷ rest) (replace_all-replace_all s))
          ∙ read-escape_all (string_lexicon true) literal_rune escaped-IsReadBack s rest
              (outside escapes rest h))
      | inr e ↦ rw e (
          ap (read (string_lexicon escapes) nothing_special) (append_assoc _ (b'\'' ∷ []) rest)
          ∙ read-plain escapes s rest e h)
    ]
  where
    outside :
        (b : Bool) (t : Text) → IsOutside (string_lexicon b) t → IsOutside (string_lexicon true) t
    outside b [] k = refl
    outside b (c ∷ cs) k = k

unfoldable dsn_rune : ℕ → Text
dsn_rune c =
    if c == b'\'' then b'\\' ∷ b'\'' ∷ [] else if c == b'\\' then b'\\' ∷ b'\\' ∷ [] else c ∷ []

dsn-escape_all :
    (s : Text)
    → replace_all b'\'' b'\\' b'\'' (replace_all b'\\' b'\\' b'\\' s) ≡ escape_all dsn_rune s
unfolding replace_all escape_all dsn_rune
dsn-escape_all [] = refl
dsn-escape_all (c ∷ s) = elim (Bool-cases (c == b'\'')) [
  | inl e ↦ elim (Bool-cases (c == b'\\')) [
    | inl f ↦ ground (arith, e, f, dsn-escape_all s)
    | inr f ↦ ground (arith, e, f, dsn-escape_all s)
  ]
  | inr e ↦ elim (Bool-cases (c == b'\\')) [
    | inl f ↦ ground (arith, e, f, dsn-escape_all s)
    | inr f ↦ ground (arith, e, f, dsn-escape_all s)
  ]
]

dsn-IsReadBack : IsReadBack dsn_lexicon dsn_rune
unfolding read dsn_rune
dsn-IsReadBack c rest = elim (Bool-cases (c == b'\'')) [
  | inl e ↦ ground (arith, e)
  | inr e ↦ elim (Bool-cases (c == b'\\')) [
    | inl f ↦ ground (arith, e, f)
    | inr f ↦ ground (arith, e, f)
  ]
]

-- A value of a connection string reads back as it was, whatever text follows it.
read_value-quote_dsn_value :
    (v rest : Text) → read_value dsn_lexicon (quote_dsn_value v ++ rest) ≡ some (v, rest)
unfolding quote_dsn_value read_value IsOutside
read_value-quote_dsn_value v rest =
    ap (read dsn_lexicon nothing_special)
      (append_assoc _ (b'\'' ∷ []) rest ∙ ap (λ t. t ++ b'\'' ∷ rest) (dsn-escape_all v))
    ∙ read-escape_all dsn_lexicon dsn_rune dsn-IsReadBack v rest (outside rest)
  where
    outside : (t : Text) → IsOutside dsn_lexicon t
    outside [] = refl
    outside (c ∷ cs) = refl

conf-escape_all : (s : Text) → escape_conf s ≡ escape_all escape_conf_rune s
unfolding escape_conf escape_all
conf-escape_all [] = refl
conf-escape_all (c ∷ s) = ap (λ t. escape_conf_rune c ++ t) (conf-escape_all s)

conf-IsReadBack : IsReadBack (string_lexicon true) escape_conf_rune
unfolding read escape_conf_rune control_rune
conf-IsReadBack c rest = elim (Bool-cases (c == b'\\')) [
  | inl e ↦ ground (arith, e)
  | inr e ↦ elim (Bool-cases (c == b'\'')) [
    | inl f ↦ ground (arith, e, f)
    | inr f ↦ elim (Bool-cases (c == 10)) [
      | inl g ↦ ground (arith, e, f, g)
      | inr g ↦ elim (Bool-cases (c == 13)) [
        | inl h ↦ ground (arith, e, f, g, h)
        | inr h ↦ ground (arith, e, f, g, h)
      ]
    ]
  ]
]

-- A value of the configuration file, followed by anything but another single quote, reads back as it
-- was, line breaks included.
pub read_value-quote_conf_value :
    (v rest : Text)
    → IsOutside (string_lexicon true) rest
    → read_value (string_lexicon true) (quote_conf_value v ++ rest) ≡ some (v, rest)
unfolding quote_conf_value read_value
read_value-quote_conf_value v rest h =
    ap (read (string_lexicon true) nothing_special)
      (append_assoc _ (b'\'' ∷ []) rest ∙ ap (λ t. t ++ b'\'' ∷ rest) (conf-escape_all v))
    ∙ read-escape_all (string_lexicon true) escape_conf_rune conf-IsReadBack v rest h

escape_conf-NoBreak :
    (stop : ℕ)
    → (stop == 10 || stop == 13) ≡ true
    → (v : Text) → contains (escape_conf v) stop ≡ false
unfolding escape_conf escape_conf_rune contains
escape_conf-NoBreak stop h [] = refl
escape_conf-NoBreak stop h (c ∷ v) =
    contains-append (escape_conf_rune c) (escape_conf v) stop
    ∙ ground (arith, h, escape_conf-NoBreak stop h v)

-- What is written for a value holds no line feed and no carriage return, so it cannot end the line
-- that it stands on.
pub quote_conf_value-one_line :
    (v : Text)
    → (contains (quote_conf_value v) 10 ≡ false) × (contains (quote_conf_value v) 13 ≡ false)
unfolding quote_conf_value contains
quote_conf_value-one_line v = (
  contains-append (escape_conf v) (b'\'' ∷ []) 10 ∙ ground (arith, escape_conf-NoBreak 10 refl v),
  contains-append (escape_conf v) (b'\'' ∷ []) 13 ∙ ground (arith, escape_conf-NoBreak 13 refl v),
)
