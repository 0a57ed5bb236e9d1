-- ===== src/Sql/Statements/Accepted.antt =====
-- Which grantees and statements are accepted.
use pgop.Prelude.{
  Bool, true, false, ◌&&◌, List, [], ◌∷◌, ◌≡◌, ◌↔◌, refl, sym, ◌∙◌, ap, arith, ◌==◌, nat_eq, some,
  ok, >>=-eq-ok, Bool-cases, inl, inr, ◌⊎◌, ==-refl, append-nil,
}
use pgop.Text.{Text, text_eq, text}
use pgop.Text.Strings.{equal_fold}
use pgop.Policy.Roles.{is_public, canonical_grantee}
use pgop.Sql.Quote.{quote_ident}
use pgop.Sql.Quote.Reader.{IsOutside}
use pgop.Sql.Quote.RoundTrip.{read_ident, read_ident-quote_ident}
use pgop.Sql.Statements.{
  render, render_grantee, public_grantee, PrivilegeObject, build_grant_query,
  build_grant_privileges_query,
}

quote_ident-injective : (s t : Text) → quote_ident s ≡ quote_ident t → s ≡ t
unfolding IsOutside
quote_ident-injective s t h =
    let a : read_ident (quote_ident s) ≡ some (s, []) =
      ap read_ident (sym (append-nil (quote_ident s))) ∙ read_ident-quote_ident s [] refl in
    let b : read_ident (quote_ident t) ≡ some (t, []) =
      ap read_ident (sym (append-nil (quote_ident t))) ∙ read_ident-quote_ident t [] refl in
    cc (a, b, h)

quote_ident-not_public : (s : Text) → (quote_ident s == public_grantee) ≡ false
unfolding quote_ident pgop.Text.text_beq
quote_ident-not_public s = refl

-- What a grantee is rendered as, by the three cases of the code.
render_grantee-cases :
    (g t : Text)
    → render_grantee g ≡ ok t
    → ((is_public g ≡ true) × (t ≡ public_grantee))
      ⊎ ((is_public g ≡ false) × (equal_fold g (text "none") ≡ false) × (t ≡ quote_ident g))
unfolding render_grantee
render_grantee-cases [] t h = cc
render_grantee-cases (c ∷ cs) t h = elim (Bool-cases (is_public (c ∷ cs))) [
  | inl e ↦ inl (e, ground (arith, e, h))
  | inr e ↦ elim (Bool-cases (equal_fold (c ∷ cs) (text "none"))) [
    | inl f ↦ ground (arith, e, f, h)
    | inr f ↦ inr (e, f, ground (arith, e, f, h))
  ]
]

-- Two grantees are rendered alike only if they are the same one, where every spelling of public is
-- PUBLIC.
render_grantee-injective :
    (g h t : Text)
    → render_grantee g ≡ ok t
    → render_grantee h ≡ ok t
    → canonical_grantee g ≡ canonical_grantee h
unfolding canonical_grantee
render_grantee-injective g h t a b = elim (render_grantee-cases g t a) [
  | inl (e, k) ↦ elim (render_grantee-cases h t b) [
    | inl (f, l) ↦ ground (arith, e, f)
    | inr (f, n, l) ↦ ground (arith, k, l, quote_ident-not_public h, ==-refl public_grantee)
  ]
  | inr (e, m, k) ↦ elim (render_grantee-cases h t b) [
    | inl (f, l) ↦ ground (arith, k, l, quote_ident-not_public g, ==-refl public_grantee)
    | inr (f, n, l) ↦
        let same : g ≡ h = quote_ident-injective g h (sym k ∙ l) in ground (arith, e, f, same)
  ]
]

-- A GRANT is built exactly when the object and its privileges are, the grantee is rendered, and the
-- grant option is not given to any spelling of public; the statement is then made of these parts.
pub build_grant_privileges_query_iff :
    (o : PrivilegeObject) (grantee : Text) (privs : List Text) (with_option : Bool) (q : Text)
    → (build_grant_privileges_query o grantee privs with_option ≡ ok q) ↔ (
        (r : List Text × Text) × (to : Text) × (render o privs ≡ ok r)
        × (render_grantee grantee ≡ ok to)
        × ((with_option && is_public grantee) ≡ false)
        × (build_grant_query r.0 r.1 to with_option ≡ q))
unfolding build_grant_privileges_query
build_grant_privileges_query_iff o grantee privs with_option q = (there, back)
  where
    public_same :
        (to : Text) → render_grantee grantee ≡ ok to → (to == public_grantee) ≡ is_public grantee
    public_same to h = elim (render_grantee-cases grantee to h) [
      | inl (e, k) ↦ ground (arith, e, k, ==-refl public_grantee)
      | inr (e, f, k) ↦ ground (arith, e, k, quote_ident-not_public grantee)
    ]

    there :
        build_grant_privileges_query o grantee privs with_option ≡ ok q
        → (r : List Text × Text) × (to : Text) × (render o privs ≡ ok r)
          × (render_grantee grantee ≡ ok to)
          × ((with_option && is_public grantee) ≡ false)
          × (build_grant_query r.0 r.1 to with_option ≡ q)
    there h =
        let (r, e, h1) = >>=-eq-ok (render o privs) _ h in
        let (to, f, h2) = >>=-eq-ok (render_grantee grantee) _ h1 in
        let same = public_same to f in
        let off : (with_option && is_public grantee) ≡ false = ground (arith, h2, same) in
        (r, to, e, f, off, ground (arith, h2, same, off))

    back :
        (r : List Text × Text) × (to : Text) × (render o privs ≡ ok r)
          × (render_grantee grantee ≡ ok to)
          × ((with_option && is_public grantee) ≡ false)
          × (build_grant_query r.0 r.1 to with_option ≡ q)
        → build_grant_privileges_query o grantee privs with_option ≡ ok q
    back (r, to, e, f, off, built) =
        let same = public_same to f in ground (arith, e, f, off, same, built)
