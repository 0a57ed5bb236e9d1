-- ===== src/Tests/Layout.antt =====
-- The images of the code's comment, and one at a registry with a port.
use pgop.Prelude.{◌∷◌, ◌++◌, ◌≡◌, refl, arith, none, ok}
use pgop.Text.{text}
use pgop.Text.Strconv.{format_int}
use pgop.Layout.{parse_postgres_major, layout_for_major, resolve_postgres_layout}
use pgop.Layout.Image.{resolve_postgres_layout-version}

postgis : parse_postgres_major (text "postgis/postgis:17-3.5-alpine") ≡ 17
unfolding parse_postgres_major
postgis = refl

port : parse_postgres_major (text "myregistry:5000/postgres") ≡ 0
unfolding parse_postgres_major
port = refl

latest : parse_postgres_major (text "postgres:latest") ≡ 0
unfolding parse_postgres_major
latest = refl

resolve_postgres_layout-version_example :
    resolve_postgres_layout none
      ((text "r:5/pg" ++ b':' ∷ (format_int 18 ++ text "-x")) ++ text "@sha256:1")
    ≡ ok (layout_for_major 18)
resolve_postgres_layout-version_example =
    resolve_postgres_layout-version (text "r:5/pg") 18 (text "-x") (text "@sha256:1")
      (
        (λ e. absurd (ground (arith, e))),
        (
          (λ e. absurd (ground (arith, e))),
          (
            (λ e. absurd (ground (arith, e))),
            (
              (λ e. absurd (ground (arith, e))),
              ((λ e. absurd (ground (arith, e))), ((λ e. absurd (ground (arith, e))), tt)),
            ),
          ),
        ),
      )
      (ground arith) (ground arith) refl
      (
        (
          (λ e. absurd (ground (arith, e))),
          (λ e. absurd (ground (arith, e))),
          (λ e. absurd (ground (arith, e))),
        ),
        (
          (
            (λ e. absurd (ground (arith, e))),
            (λ e. absurd (ground (arith, e))),
            (λ e. absurd (ground (arith, e))),
          ),
          tt,
        ),
      )
      refl
