-- ===== src/Layout.antt =====
-- The data directory of a Cluster by its major version: internal/controller/pgpaths.go.
pub mod Image
use pgop.Prelude.{
  ℕ, zero, suc, ◌+◌, Bool, true, false, ◌&&◌, ◌||◌, List, [], ◌∷◌, ◌++◌, ◌==◌, nat_eq, ltb, leb,
  if◌then◌else◌, is_empty, Option, none, some, Result, ok, err,
}
use pgop.Text.{Text, text_eq, text}
use pgop.Text.Strconv.{format_int}
use pgop.Text.Strconv.Unambiguous.{value_from}

-- `postgresLayout`
pub record PostgresLayout : Type 0 where
  pub mount_path : Text
  pub pgdata : Text

-- `NeedsVolumeFix`
unfoldable pub needs_volume_fix : PostgresLayout → Bool
needs_volume_fix l = l.mount_path == l.pgdata

unfoldable pub layout_for_major : ℕ → PostgresLayout
layout_for_major major =
    if leb 18 major
    then record {
      mount_path = text "/var/lib/postgresql";
      pgdata = text "/var/lib/postgresql/" ++ format_int major ++ text "/docker";
    }
    else record {
      mount_path = text "/var/lib/postgresql/data";
      pgdata = text "/var/lib/postgresql/data";
    }

-- What stands before the first `@`, where there is one.
unfoldable pub without_digest : Text → Text
without_digest [] = []
without_digest (c ∷ cs) = let rest = without_digest cs in if c == b'@' then [] else c ∷ rest

abbrev pub index_after : Bool → Option ℕ → Option ℕ
index_after here (some i) = some (suc i)
index_after true none = some 0
index_after false none = none

-- strings.LastIndex of one character, where `none` is -1.
unfoldable pub last_index : Text → ℕ → Option ℕ
last_index [] sep = none
last_index (c ∷ cs) sep = index_after (c == sep) (last_index cs sep)

-- `s[i:]`, for an index that is not beyond the end.
unfoldable pub slice_from : ℕ → Text → Text
slice_from zero s = s
slice_from (suc i) [] = []
slice_from (suc i) (c ∷ cs) = slice_from i cs

unfoldable pub leading_digits : Text → Text
leading_digits [] = []
leading_digits (c ∷ cs) =
    let rest = leading_digits cs in if leb b'0' c && leb c b'9' then c ∷ rest else []

abbrev pub max_int : ℕ
max_int = 9223372036854775807

-- strconv.Atoi of digits, of which there are some, or 0 where they do not fit an int.
unfoldable pub atoi : Text → ℕ
unfolding value_from
atoi digits = if leb (value_from 0 digits) max_int then value_from 0 digits else 0

unfoldable pub major_of_tag : Text → ℕ
unfolding leading_digits atoi
major_of_tag tag = if is_empty (leading_digits tag) then 0 else atoi (leading_digits tag)

-- A colon before the last slash is the port of a registry.
abbrev pub is_port : ℕ → Option ℕ → Bool
is_port colon none = false
is_port colon (some slash) = ltb colon slash

abbrev pub major_at : Text → Option ℕ → ℕ
major_at image none = 0
major_at image (some colon) =
    if is_port colon (last_index image b'/') then 0 else major_of_tag (slice_from (suc colon) image)

unfoldable pub major_of_reference : Text → ℕ
unfolding last_index slice_from major_of_tag
major_of_reference image = major_at image (last_index image b':')

-- `parsePostgresMajor`
unfoldable pub parse_postgres_major : Text → ℕ
unfolding without_digest major_of_reference
parse_postgres_major image = major_of_reference (without_digest image)

abbrev pub default_postgres_image : Text
default_postgres_image = text "postgres:18"

pub data LayoutError : Type 0 where
  unknown_major : Text → LayoutError

abbrev pub layout_or_error : Text → ℕ → Result LayoutError PostgresLayout
layout_or_error image major =
    if major == 0 then err (unknown_major image) else ok (layout_for_major major)

-- `resolvePostgresLayout`, of the major version and the image of the spec.
unfoldable pub resolve_postgres_layout : Option ℕ → Text → Result LayoutError PostgresLayout
unfolding parse_postgres_major layout_for_major
resolve_postgres_layout (some major) image = ok (layout_for_major major)
resolve_postgres_layout none [] =
    layout_or_error default_postgres_image (parse_postgres_major default_postgres_image)
resolve_postgres_layout none (c ∷ cs) = layout_or_error (c ∷ cs) (parse_postgres_major (c ∷ cs))
