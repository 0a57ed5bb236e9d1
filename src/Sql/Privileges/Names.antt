-- ===== src/Sql/Privileges/Names.antt =====
-- The canonical form of parameter names.
use pgop.Prelude.{
  ℕ, suc, Bool, true, false, not, ◌||◌, [], ◌∷◌, ◌≡◌, refl, sym, ◌∙◌, ap, arith, ◌==◌, nat_eq, ltb,
  length, ok, contains,
}
use pgop.Text.{Text, text_eq}
use pgop.Text.Strings.{lower_rune, to_lower}
use pgop.Sql.Privileges.{
  is_name_start, is_name_rune, matches_parameter_name, normalize_parameter_name,
  max_parameter_name_length, denied_parameters, denied_parameter_prefixes, has_any_prefix,
  denied_parameter,
}

lower_rune-lower_rune : (c : ℕ) → lower_rune (lower_rune c) ≡ lower_rune c
unfolding lower_rune
lower_rune-lower_rune c = ground arith

to_lower-to_lower : (s : Text) → to_lower (to_lower s) ≡ to_lower s
unfolding to_lower
to_lower-to_lower [] = refl
to_lower-to_lower (c ∷ s) = ground (arith, lower_rune-lower_rune c, to_lower-to_lower s)

length-to_lower : (s : Text) → length (to_lower s) ≡ length s
unfolding to_lower
length-to_lower [] = refl
length-to_lower (c ∷ s) = ap suc (length-to_lower s)

start-lower : (c : ℕ) → is_name_start c ≡ true → is_name_start (lower_rune c) ≡ true
unfolding is_name_start lower_rune
start-lower c h = ground (arith, h)

rune-lower :
    (c : ℕ)
    → (c == b'.' || is_name_rune c) ≡ true
    → ((lower_rune c == b'.') ≡ (c == b'.'))
      × ((lower_rune c == b'.' || is_name_rune (lower_rune c)) ≡ true)
unfolding is_name_start is_name_rune lower_rune
rune-lower c h = (ground (arith, h), ground (arith, h))

matches-to_lower :
    (part_open : Bool) (s : Text)
    → matches_parameter_name part_open s ≡ true
    → matches_parameter_name part_open (to_lower s) ≡ true
unfolding matches_parameter_name to_lower
matches-to_lower true [] h = h
matches-to_lower false [] h = h
matches-to_lower false (c ∷ s) h =
    ground (arith, start-lower c (ground (arith, h)), matches-to_lower true s (ground (arith, h)))
matches-to_lower true (c ∷ s) h =
    let first : (c == b'.' || is_name_rune c) ≡ true = ground (arith, h) in
    let rest : matches_parameter_name (not (c == b'.')) s ≡ true = ground (arith, h, first) in
    let (same, allowed) = rune-lower c first in
    let ih = matches-to_lower (not (c == b'.')) s rest in ground (arith, same, allowed, ih)

denied_parameter-same :
    (m n : Text) → to_lower m ≡ to_lower n → denied_parameter m ≡ denied_parameter n
unfolding denied_parameter
denied_parameter-same m n h =
    ap (λ l. contains denied_parameters l || has_any_prefix l denied_parameter_prefixes) h

-- The canonical form of a parameter name is its own canonical form, and pgop refuses the canonical
-- form exactly when it refuses the name.
pub normalize_parameter_name-idempotent :
    (name n : Text)
    → normalize_parameter_name name ≡ ok n
    → (normalize_parameter_name n ≡ ok n) × (denied_parameter n ≡ denied_parameter name)
unfolding normalize_parameter_name
normalize_parameter_name-idempotent name n h =
    let same : n ≡ to_lower name = ground (arith, h) in
    let short : ltb max_parameter_name_length (length name) ≡ false = ground (arith, h) in
    let fits : matches_parameter_name false name ≡ true = ground (arith, h) in
    let twice = to_lower-to_lower name in
    let lowered : to_lower n ≡ n = ap to_lower same ∙ twice ∙ sym same in
    let still = matches-to_lower false name fits in
    let long = length-to_lower name in
    let size : length n ≡ length name = ap length same ∙ long in
    let form : matches_parameter_name false n ≡ true =
      ap (matches_parameter_name false) same ∙ still in
    (ground (arith, lowered, size, short, form), denied_parameter-same n name (lowered ∙ same))
