-- ===== src/Layout/Image.antt =====
-- The major version that is read of an image.
use pgop.Prelude.{
  ℕ, suc, ◌≤◌, false, ◌&&◌, [], ◌∷◌, ◌++◌, ◌≡◌, ◌≢◌, refl, ap, ◌∙◌, arith, ◌==◌, nat_eq, leb,
  is_empty, length, All, All-append, All-map, Option, none, some, ok, Bool-cases, inl, inr,
}
use pgop.Text.{Text, text_eq}
use pgop.Text.Strconv.{format_int}
use pgop.Text.Strconv.Unambiguous.{value_from-format_int, format_int-is_digit, format_int-is_empty}
use pgop.Layout.{
  without_digest, index_after, last_index, slice_from, leading_digits, max_int, atoi, major_of_tag,
  is_port, major_of_reference, parse_postgres_major, layout_for_major, layout_or_error,
  resolve_postgres_layout,
}

-- What a tag may end in: nothing that starts with a digit.
abbrev pub EndsVersion : Text → Type 0
EndsVersion [] = Unit
EndsVersion (c ∷ cs) = (leb b'0' c && leb c b'9') ≡ false

-- A character that ends neither a tag nor what stands before a digest.
abbrev pub IsTagChar : ℕ → Type 0
IsTagChar c = (c ≢ b'@') × (c ≢ b':') × (c ≢ b'/')

-- An image is read up to its digest, if it has one.
abbrev pub IsDigest : Text → Type 0
IsDigest [] = Unit
IsDigest (c ∷ cs) = c ≡ b'@'

without_digest-append :
    (a d : Text) → All (λ c. c ≢ b'@') a → IsDigest d → without_digest (a ++ d) ≡ a
unfolding without_digest
without_digest-append [] [] h k = refl
without_digest-append [] (c ∷ cs) h k = ground (arith, k)
without_digest-append (c ∷ cs) d (h, hs) k = ground (arith, h, without_digest-append cs d hs k)

last_index-none : (b : Text) (sep : ℕ) → All (λ c. c ≢ sep) b → last_index b sep ≡ none
unfolding last_index
last_index-none [] sep h = refl
last_index-none (c ∷ cs) sep (h, hs) = ground (arith, h, last_index-none cs sep hs)

last_index-append :
    (a b : Text) (sep : ℕ) → All (λ c. c ≢ sep) b → last_index (a ++ sep ∷ b) sep ≡ some (length a)
unfolding last_index
last_index-append [] b sep h = ground (arith, last_index-none b sep h)
last_index-append (c ∷ cs) b sep h = ground (arith, last_index-append cs b sep h)

-- What stands at the last slash is no port, if the tag has no slash.
is_port-append :
    (a b : Text) (c : ℕ)
    → c ≢ b'/'
    → All (λ d. d ≢ b'/') b
    → is_port (length a) (last_index (a ++ c ∷ b) b'/') ≡ false
unfolding last_index
is_port-append [] b c n h = ground (arith, n, last_index-none b b'/' h)
is_port-append (x ∷ xs) b c n h = shift (last_index (xs ++ c ∷ b) b'/') (is_port-append xs b c n h)
  where
    shift :
        (o : Option ℕ)
        → is_port (length xs) o ≡ false
        → is_port (suc (length xs)) (index_after (x == b'/') o) ≡ false
    shift none k = elim (Bool-cases (x == b'/')) [
      | inl e ↦ ground (arith, e)
      | inr e ↦ ground (arith, e)
    ]
    shift (some i) k = ground (arith, k)

slice_from-append : (a b : Text) (c : ℕ) → slice_from (suc (length a)) (a ++ c ∷ b) ≡ b
unfolding slice_from
slice_from-append [] b c = refl
slice_from-append (x ∷ xs) b c = slice_from-append xs b c

leading_digits-append :
    (a b : Text) → All (λ d. (48 ≤ d) × (d ≤ 57)) a → EndsVersion b → leading_digits (a ++ b) ≡ a
unfolding leading_digits
leading_digits-append [] [] h k = refl
leading_digits-append [] (c ∷ cs) h k = ground (arith, k)
leading_digits-append (x ∷ xs) b ((l, u), h) k =
    ground (arith, l, u, leading_digits-append xs b h k)

major_of_tag-version :
    (n : ℕ) (suffix : Text)
    → n ≤ max_int
    → EndsVersion suffix
    → major_of_tag (format_int n ++ suffix) ≡ n
unfolding major_of_tag atoi
major_of_tag-version n suffix h k =
    rw
      (
        leading_digits-append (format_int n) suffix (format_int-is_digit n) k,
        format_int-is_empty n,
        value_from-format_int n,
      )
      (ground (arith, h))

tag_chars : (n : ℕ) (suffix : Text) → All IsTagChar suffix → All IsTagChar (format_int n ++ suffix)
tag_chars n suffix h =
    All-append IsTagChar (format_int n) suffix
      (All-map
        (λ c (l, u). (
          (λ e. absurd (ground (arith, l, u, e))),
          (λ e. absurd (ground (arith, l, u, e))),
          (λ e. absurd (ground (arith, l, u, e))),
        ))
        (format_int n) (format_int-is_digit n))
      h

parse_postgres_major-version :
    (repo : Text) (n : ℕ) (suffix digest : Text)
    → All (λ c. c ≢ b'@') repo
    → n ≤ max_int
    → EndsVersion suffix
    → All IsTagChar suffix
    → IsDigest digest
    → parse_postgres_major ((repo ++ b':' ∷ (format_int n ++ suffix)) ++ digest) ≡ n
unfolding parse_postgres_major major_of_reference
parse_postgres_major-version repo n suffix digest r h k t d =
    let tag = format_int n ++ suffix in
    let chars = tag_chars n suffix t in
    let no_at =
      All-append (λ c. c ≢ b'@') repo (b':' ∷ tag) r
        ((λ e. absurd (ground (arith, e))), All-map (λ c x. x.0) tag chars) in
    rw
      (
        without_digest-append (repo ++ b':' ∷ tag) digest no_at d,
        last_index-append repo tag b':' (All-map (λ c x. x.1) tag chars),
        is_port-append repo tag b':' (λ e. absurd (ground (arith, e)))
            (All-map (λ c x. x.2) tag chars),
        slice_from-append repo tag b':',
      )
      (major_of_tag-version n suffix h k)

resolve_postgres_layout-parsed :
    (image : Text)
    → is_empty image ≡ false
    → resolve_postgres_layout none image ≡ layout_or_error image (parse_postgres_major image)
unfolding resolve_postgres_layout
resolve_postgres_layout-parsed [] h = absurd (ground (arith, h))
resolve_postgres_layout-parsed (c ∷ cs) h = refl

tagged-is_empty : (a b d : Text) (c : ℕ) → is_empty ((a ++ c ∷ b) ++ d) ≡ false
tagged-is_empty [] b d c = refl
tagged-is_empty (x ∷ xs) b d c = refl

-- Without a major version in the spec, an image whose tag starts with the decimal of a version that is
-- not 0 and fits an int, and goes on with anything but a digit, `@`, `:` and `/`, gets the layout of
-- that version: whatever registry, port and name stand before the tag, and digest after it.
pub resolve_postgres_layout-version :
    (repo : Text) (n : ℕ) (suffix digest : Text)
    → All (λ c. c ≢ b'@') repo
    → 1 ≤ n
    → n ≤ max_int
    → EndsVersion suffix
    → All IsTagChar suffix
    → IsDigest digest
    → resolve_postgres_layout none ((repo ++ b':' ∷ (format_int n ++ suffix)) ++ digest)
      ≡ ok (layout_for_major n)
resolve_postgres_layout-version repo n suffix digest r p h k t d =
    let image = (repo ++ b':' ∷ (format_int n ++ suffix)) ++ digest in
    let major : parse_postgres_major image ≡ n =
      parse_postgres_major-version repo n suffix digest r h k t d in
    resolve_postgres_layout-parsed image (tagged-is_empty repo (format_int n ++ suffix) digest b':')
    ∙ ap (layout_or_error image) major
    ∙ ground (arith, p)
