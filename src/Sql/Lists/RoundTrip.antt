-- ===== src/Sql/Lists/RoundTrip.antt =====
-- The lists that are written with quoted identifiers.
use pgop.Prelude.{
  ℕ, ◌<◌, ◌+◌, true, false, List, [], ◌∷◌, ◌++◌, ◌==◌, nat_eq, ◌≡◌, refl, ap, sym, ◌∙◌, Option,
  some, Result, ok, length, arith, Bool-cases, inl, inr, All, map, append_assoc, append-nil,
  is_empty, contains,
}
use pgop.Text.{Text, text_eq, text}
use pgop.Text.Strings.{join}
use pgop.Sql.Quote.{replace_all, quote_ident, quote_literal}
use pgop.Sql.Privileges.{SqlError}
use pgop.Sql.Lists.{
  skip_blanks, quoted_element, quoted_or_error, next_element, after_element, split_elements,
  split_identifier_list, format_setting_value, list_quote_parameters, is_white,
}
use pgop.Sql.Lists.Enough.{split_elements-ends}

-- What may follow a quoted element: anything but another quote.
abbrev IsApart : Text → Type 0
IsApart [] = Unit
IsApart (c ∷ cs) = (c == b'"') ≡ false

quoted_element-replace_all :
    (name rest : Text)
    → IsApart rest
    → quoted_element false (replace_all b'"' b'"' b'"' name ++ b'"' ∷ rest) ≡ some (name, rest)
unfolding quoted_element replace_all
quoted_element-replace_all [] [] h = refl
quoted_element-replace_all [] (c ∷ cs) h = ground (arith, h)
quoted_element-replace_all (c ∷ cs) rest h = elim (Bool-cases (c == b'"')) [
  | inl e ↦ ground (arith, e, quoted_element-replace_all cs rest h)
  | inr e ↦ ground (arith, e, quoted_element-replace_all cs rest h)
]

-- The list, as it is written: the elements are quoted, with a comma and a space between them.
abbrev pub quoted_list : List Text → Text
quoted_list names = join (map quote_ident names) (text ", ")

-- What follows the first element.
abbrev behind : List Text → Text
behind [] = []
behind (m ∷ ms) = b',' ∷ 32 ∷ quoted_list (m ∷ ms)

quoted_list-behind : (n : Text) (ns : List Text) → quoted_list (n ∷ ns) ≡ quote_ident n ++ behind ns
unfolding join
quoted_list-behind n [] = sym (append-nil (quote_ident n))
quoted_list-behind n (m ∷ ms) = refl

next_element-quote_ident :
    (n tail : Text) → IsApart tail → next_element (quote_ident n ++ tail) ≡ ok (n, skip_blanks tail)
unfolding next_element quote_ident
next_element-quote_ident n tail h =
    ap (λ t. quoted_or_error (quoted_element false t))
      (append_assoc (replace_all b'"' b'"' b'"' n) (b'"' ∷ []) tail)
    ∙ ap quoted_or_error (quoted_element-replace_all n tail h)

behind-IsApart : (ns : List Text) → IsApart (behind ns)
behind-IsApart [] = tt
behind-IsApart (m ∷ ms) = refl

skip_blanks-quoted_list :
    (n : Text) (ns : List Text) → skip_blanks (quoted_list (n ∷ ns)) ≡ quoted_list (n ∷ ns)
unfolding skip_blanks quote_ident
skip_blanks-quoted_list n ns =
    ap skip_blanks (quoted_list-behind n ns) ∙ sym (quoted_list-behind n ns)

skip_blanks-behind : (m : Text) (ms : List Text) → skip_blanks (behind (m ∷ ms)) ≡ behind (m ∷ ms)
unfolding skip_blanks
skip_blanks-behind m ms = refl

abbrev pub IsNonempty : Text → Type 0
IsNonempty t = is_empty t ≡ false

after_element-nonempty :
    (out : List Text) (next : List Text → Text → Option (Result SqlError (List Text)))
    (n rest : Text)
    → IsNonempty n
    → (after_element out next (ok (n, [])) ≡ some (ok (out ++ n ∷ [])))
      × (after_element out next (ok (n, b',' ∷ rest)) ≡ next (out ++ n ∷ []) rest)
after_element-nonempty out next [] rest h = absurd (ground (arith, h))
after_element-nonempty out next (c ∷ cs) rest h = (refl, refl)

split_elements-quoted :
    (n : Text) (ns : List Text) (fuel : ℕ) (out : List Text) (s : Text)
    → skip_blanks s ≡ quoted_list (n ∷ ns)
    → All IsNonempty (n ∷ ns)
    → length ns < fuel
    → split_elements fuel out s ≡ some (ok (out ++ n ∷ ns))
unfolding split_elements
split_elements-quoted n ns ℕ.zero out s e h k = absurd (ground (arith, k))
split_elements-quoted n [] (ℕ.suc f) out s e (h, hs) k =
    ap (λ t. after_element out (split_elements f) (next_element t)) (e ∙ quoted_list-behind n [])
    ∙ ap (after_element out (split_elements f)) (next_element-quote_ident n [] tt)
    ∙ (after_element-nonempty out (split_elements f) n [] h).0
split_elements-quoted n (m ∷ ms) (ℕ.suc f) out s e (h, hs) k =
    ap (λ t. after_element out (split_elements f) (next_element t))
      (e ∙ quoted_list-behind n (m ∷ ms))
    ∙ ap (after_element out (split_elements f)) (next_element-quote_ident n (behind (m ∷ ms)) refl)
    ∙ (after_element-nonempty out (split_elements f) n (32 ∷ quoted_list (m ∷ ms)) h).1
    ∙ split_elements-quoted m ms f (out ++ n ∷ []) (32 ∷ quoted_list (m ∷ ms))
        (skip_blanks-quoted_list m ms) hs (ground (arith, k))
    ∙ ap (λ l. some (ok l)) (append_assoc out (n ∷ []) (m ∷ ms))

split_identifier_list-quoted_list :
    (n : Text) (ns : List Text)
    → All IsNonempty (n ∷ ns)
    → split_identifier_list (quoted_list (n ∷ ns)) ≡ ok (n ∷ ns)
split_identifier_list-quoted_list n ns h =
    let s = quoted_list (n ∷ ns) in
    let fuel = ℕ.suc (length s + length ns) in
    let whole : some (split_identifier_list s) ≡ some (ok (n ∷ ns)) =
      sym (split_elements-ends s fuel (ground arith))
      ∙ split_elements-quoted n ns fuel [] s (skip_blanks-quoted_list n ns) h (ground arith) in
    cc whole

-- For a parameter that takes a list of identifiers, a value that quotes each of a list of names, none
-- of them empty, is written as the constants of exactly these names.
pub format_setting_value-quoted_list :
    (parameter n : Text) (ns : List Text)
    → contains list_quote_parameters parameter ≡ true
    → All IsNonempty (n ∷ ns)
    → format_setting_value parameter (quoted_list (n ∷ ns))
      ≡ ok (join (map quote_literal (n ∷ ns)) (text ", "))
unfolding format_setting_value is_white quote_ident
format_setting_value-quoted_list parameter n ns listed h =
    let white : is_white (quoted_list (n ∷ ns)) ≡ false = ap is_white (quoted_list-behind n ns) in
    rw (listed, white, split_identifier_list-quoted_list n ns h) refl
