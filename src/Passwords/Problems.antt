-- ===== src/Passwords/Problems.antt =====
-- What makes a value unusable as a password: `passwordProblem` of internal/controller/role_password.go and
-- `IsPreHashedPassword` of internal/postgres/scram.go. A value is the list of its bytes.
use pgop.Prelude.{
  ℕ, Bool, true, false, not, ◌&&◌, ◌||◌, [], ◌∷◌, ◌==◌, nat_eq, leb, if◌then◌else◌, Option, none,
  some, ℕ, contains, length, ◌≡◌, refl,
}
use pgop.Text.{Text, text_eq, text}
use pgop.Text.Strings.{has_prefix}

-- What utf8.Valid is reading: the start of a character, or `left` bytes, the first of which is in a
-- range.
pub data Reading : Type 0 where
  start : Reading
  inside : ℕ → ℕ → ℕ → Reading

abbrev between : ℕ → ℕ → ℕ → Bool
between lo hi b = leb lo b && leb b hi

-- The table of the first bytes.
unfoldable pub first_byte : ℕ → Option Reading
first_byte b =
    if leb b 0x7F
    then some start
    else if between 0xC2 0xDF b
    then some (inside 0 0x80 0xBF)
    else if b == 0xE0
    then some (inside 1 0xA0 0xBF)
    else if b == 0xED
    then some (inside 1 0x80 0x9F)
    else if between 0xE1 0xEF b
    then some (inside 1 0x80 0xBF)
    else if b == 0xF0
    then some (inside 2 0x90 0xBF)
    else if between 0xF1 0xF3 b
    then some (inside 2 0x80 0xBF)
    else if b == 0xF4
    then some (inside 2 0x80 0x8F)
    else none

abbrev more : ℕ → Reading
more ℕ.zero = start
more (ℕ.suc n) = inside n 0x80 0xBF

unfoldable pub next_byte : Reading → ℕ → Option Reading
unfolding first_byte
next_byte start b = first_byte b
next_byte (inside n lo hi) b = if between lo hi b then some (more n) else none

unfoldable pub valid_from : Option Reading → Text → Bool
unfolding next_byte
valid_from none bs = false
valid_from (some start) [] = true
valid_from (some (inside n lo hi)) [] = false
valid_from (some state) (b ∷ bs) = valid_from (next_byte state b) bs

-- utf8.Valid
unfoldable pub valid : Text → Bool
unfolding valid_from
valid bs = valid_from (some start) bs

valid_sample : valid (0x68 ∷ 0xC3 ∷ 0xA9 ∷ []) ≡ true
unfolding valid
valid_sample = refl

overlong_sample : valid (0xC0 ∷ 0x80 ∷ []) ≡ false
unfolding valid
overlong_sample = refl

abbrev pub scram_prefix : Text
scram_prefix = text "SCRAM-SHA-256$"

abbrev pub md5_prefix : Text
md5_prefix = text "md5"

abbrev pub is_hex : ℕ → Bool
is_hex c = contains (text "0123456789abcdef") c

unfoldable pub all_hex : Text → Bool
unfolding contains
all_hex [] = true
all_hex (c ∷ cs) = is_hex c && all_hex cs

-- password[n:]
unfoldable pub drop : ℕ → Text → Text
drop ℕ.zero s = s
drop (ℕ.suc n) [] = []
drop (ℕ.suc n) (c ∷ cs) = drop n cs

-- `IsPreHashedPassword`
unfoldable pub is_pre_hashed_password : Text → Bool
unfolding has_prefix all_hex drop
is_pre_hashed_password password =
    if has_prefix password scram_prefix
    then true
    else if not (length password == 35) || not (has_prefix password md5_prefix)
    then false
    else all_hex (drop 3 password)

pub data Problem : Type 0 where
  not_utf8 : Problem
  nul_byte : Problem
  pre_hashed : Problem

-- `passwordProblem`
unfoldable pub password_problem : Text → Option Problem
unfolding valid contains is_pre_hashed_password
password_problem pw =
    if not (valid pw)
    then some not_utf8
    else if contains pw 0
    then some nul_byte
    else if is_pre_hashed_password pw
    then some pre_hashed
    else none
