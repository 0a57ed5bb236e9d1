-- ===== src/Text/Strings.antt =====
-- What the program uses of the standard library's `strings`.
use pgop.Prelude.{
  ℕ, ◌+◌, ◌-◌, Bool, true, false, ◌&&◌, ◌||◌, List, [], ◌∷◌, ◌++◌, leb, ltb, ◌==◌, nat_eq,
  if◌then◌else◌, map, Option, none, some, ◌≡◌, refl, ◌≢◌, All, arith, Bool-cases, inl, inr, ap, ap₂,
  eq_of_==,
}
use pgop.Text.Base.{Text, text_eq, text}

-- strings.HasPrefix(s, prefix)
unfoldable pub has_prefix : Text → Text → Bool
has_prefix s [] = true
has_prefix [] (p ∷ ps) = false
has_prefix (c ∷ cs) (p ∷ ps) = c == p && has_prefix cs ps

-- strings.Join
unfoldable pub join : List Text → Text → Text
join [] sep = []
join (x ∷ []) sep = x
join (x ∷ y ∷ ys) sep = x ++ (sep ++ join (y ∷ ys) sep)

-- unicode.ToUpper, as far as its value can be an ASCII letter: besides a to z, the dotless i and the
-- long s have one. Other letters stay, and are no ASCII letter before or after.
unfoldable pub upper_rune : ℕ → ℕ
upper_rune c =
    if leb b'a' c && leb c b'z'
    then c - 32
    else if c == 0x131
    then b'I'
    else if c == 0x17F
    then b'S'
    else c

-- strings.ToUpper
unfoldable pub to_upper : Text → Text
unfolding upper_rune
to_upper = map upper_rune

-- unicode.ToLower, as far as its value can be an ASCII letter: besides A to Z, the dotted I and the
-- Kelvin sign have one.
unfoldable pub lower_rune : ℕ → ℕ
lower_rune c =
    if leb b'A' c && leb c b'Z'
    then c + 32
    else if c == 0x130
    then b'i'
    else if c == 0x212A
    then b'k'
    else c

-- strings.ToLower
unfoldable pub to_lower : Text → Text
unfolding lower_rune
to_lower = map lower_rune

-- strings.EqualFold against an ASCII text without the letters k and s, whose only other cases are
-- ASCII: the letters a to z are compared in upper case.
unfoldable pub fold_rune : ℕ → ℕ
fold_rune c = if leb b'a' c && leb c b'z' then c - 32 else c

unfoldable pub equal_fold : Text → Text → Bool
unfolding fold_rune
equal_fold s t = map fold_rune s == map fold_rune t

-- unicode.IsSpace
unfoldable pub is_space : ℕ → Bool
is_space c =
    (leb 9 c && leb c 13)
    || c == 32
    || c == 0x85
    || c == 0xA0
    || c == 0x1680
    || (leb 0x2000 c && leb c 0x200A)
    || c == 0x2028
    || c == 0x2029
    || c == 0x202F
    || c == 0x205F
    || c == 0x3000

-- A word is put in front of the others, unless it is empty.
abbrev add_word : Text → List Text → List Text
add_word [] ws = ws
add_word (c ∷ cs) ws = (c ∷ cs) ∷ ws

-- The word that is open, and the words behind it.
split_words : Text → Text × List Text
unfolding is_space
split_words [] = ([], [])
split_words (c ∷ cs) =
    let (w, ws) = split_words cs in if is_space c then ([], add_word w ws) else (c ∷ w, ws)

-- strings.Fields
unfoldable pub fields : Text → List Text
unfolding split_words
fields s = let (w, ws) = split_words s in add_word w ws

fields_sample : fields (text " all \t privileges ") ≡ text "all" ∷ text "privileges" ∷ []
unfolding fields
fields_sample = refl

upper_sample : to_upper (text "Usage") ≡ text "USAGE"
unfolding to_upper
upper_sample = refl

-- strings.CutPrefix
unfoldable pub cut_prefix : Text → Text → Option Text
cut_prefix s [] = some s
cut_prefix [] (p ∷ ps) = none
cut_prefix (c ∷ cs) (p ∷ ps) = if c == p then cut_prefix cs ps else none

abbrev before_also : ℕ → Option (Text × Text) → Option (Text × Text)
before_also c none = none
before_also c (some (before, after)) = some (c ∷ before, after)

-- strings.Cut at a separator of one character.
unfoldable pub cut : Text → ℕ → Option (Text × Text)
cut [] sep = none
cut (c ∷ cs) sep = let rest = cut cs sep in if c == sep then some ([], cs) else before_also c rest

pub cut_prefix-append : (p s : Text) → cut_prefix (p ++ s) p ≡ some s
unfolding cut_prefix
cut_prefix-append [] s = refl
cut_prefix-append (c ∷ cs) s = ground (arith, cut_prefix-append cs s)

pub cut-append :
    (a b : Text) (sep : ℕ) → All (λ c. c ≢ sep) a → cut (a ++ sep ∷ b) sep ≡ some (a, b)
unfolding cut
cut-append [] b sep h = ground arith
cut-append (c ∷ cs) b sep (h, hs) = ground (arith, cut-append cs b sep hs)

-- The bytes of a character in UTF-8, and Go's `len` of a string.
abbrev pub width : ℕ → ℕ
width c = if ltb c 128 then 1 else if ltb c 2048 then 2 else if ltb c 65536 then 3 else 4

unfoldable pub byte_length : Text → ℕ
byte_length [] = 0
byte_length (c ∷ cs) = width c + byte_length cs

-- What a prefix was cut from.
pub cut_prefix-some : (s p : Text) {r : Text} → cut_prefix s p ≡ some r → s ≡ p ++ r
unfolding cut_prefix
cut_prefix-some s [] h = cc h
cut_prefix-some [] (p ∷ ps) h = absurd (ground (arith, h))
cut_prefix-some (c ∷ cs) (p ∷ ps) {r} h = elim (Bool-cases (c == p)) [
  | inl e ↦
      ap₂ (λ (x : ℕ) (xs : Text). x ∷ xs) (eq_of_== c p e)
        (cut_prefix-some cs ps (ground (arith, h, e)))
  | inr e ↦ absurd (ground (arith, h, e))
]

-- Where a text was cut.
pub cut-some :
    (s : Text) (sep : ℕ) {a b : Text}
    → cut s sep ≡ some (a, b)
    → (s ≡ a ++ sep ∷ b) × All (λ c. c ≢ sep) a
unfolding cut
cut-some [] sep h = absurd (ground (arith, h))
cut-some (c ∷ cs) sep {a} {b} h = elim (Bool-cases (c == sep)) [
  | inl e ↦
      let whole : ◌≡◌ {A = Option (Text × Text)} (some ([], cs)) (some (a, b)) =
        ground (arith, h, e) in
      let none_before : ◌≡◌ {A = Text} [] a = cc whole in
      let after : cs ≡ b = cc whole in
      rw (← none_before) (ap₂ (λ (x : ℕ) (xs : Text). x ∷ xs) (eq_of_== c sep e) after, tt)
  | inr e ↦
      later (cut cs sep) (λ x y k. cut-some cs sep k) (λ d. ground (arith, e, d))
        (ground (arith, h, e))
]
  where
    later :
        (o : Option (Text × Text))
        → ((x y : Text) → o ≡ some (x, y) → (cs ≡ x ++ sep ∷ y) × All (λ d. d ≢ sep) x)
        → c ≢ sep
        → before_also c o ≡ some (a, b)
        → (c ∷ cs ≡ a ++ sep ∷ b) × All (λ d. d ≢ sep) a
    later none ih ne k = absurd (ground (arith, k))
    later (some (x, y)) ih ne k =
        let (whole, free) = ih x y refl in
        let before : c ∷ x ≡ a = cc k in
        let after : y ≡ b = cc k in
        rw (← before, ← after) (ap (λ (t : Text). c ∷ t) whole, (ne, free))
