-- ===== src/Grants/Target/Keys.antt =====
-- Ledger keys tell targets apart.
use pgop.Prelude.{
  ℕ, [], ◌∷◌, ◌++◌, ◌≡◌, ◌≢◌, ◌↔◌, sym, ◌∙◌, arith, ◌==◌, nat_eq, if◌then◌else◌, All, Bool-cases,
  inl, inr, append_assoc, append-nil,
}
use pgop.Text.{Text, text_eq, text_beq_iff}
use pgop.Text.Strconv.{quote, format_int}
use pgop.Text.Strconv.Unambiguous.{
  quote_unambiguous, split_unambiguous, format_int-no_bar, format_int-injective,
}
use pgop.Grants.Target.{GrantTarget, key_name, key}

-- No `|` in it: so are all the kinds of the source.
abbrev pub HasNoBar : Text → Type 0
HasNoBar = All (λ c. c ≢ b'|')

-- What a ledger key is made of. The schema is data, and a name counts only without an OID.
pub record SameKey (t u : GrantTarget) : Type 0 where
  pub kind : t.kind ≡ u.kind
  pub grantee : t.grantee ≡ u.grantee
  pub for_role : t.for_role ≡ u.for_role
  pub oid : t.oid ≡ u.oid
  pub name : t.oid ≡ 0 → t.name ≡ u.name

-- What follows the grantee.
key_end : GrantTarget → Text
key_end t = if t.for_role == [] then [] else b'|' ∷ quote t.for_role

key_parts :
    (t : GrantTarget)
    → key t ≡ t.kind ++ b'|' ∷ (key_name t ++ b'|' ∷ (quote t.grantee ++ key_end t))
unfolding key key_end
key_parts t = elim (Bool-cases (t.for_role == [])) [
  | inl e ↦ rw e (simp append-nil)
  | inr e ↦ rw e (simp append_assoc)
]

cons_parts : (c d : ℕ) (x y : Text) → ◌≡◌ {A = Text} (c ∷ x) (d ∷ y) → (c ≡ d) × (x ≡ y)
cons_parts c d x y h = (cc, cc)

quote-injective : (a b : Text) → quote a ≡ quote b → a ≡ b
quote-injective a b h =
    (quote_unambiguous a b [] [] (append-nil (quote a) ∙ h ∙ sym (append-nil (quote b)))).0

key_end-injective : (t u : GrantTarget) → key_end t ≡ key_end u → t.for_role ≡ u.for_role
unfolding key_end
key_end-injective t u h = elim (Bool-cases (t.for_role == [])) [
  | inl e ↦ elim (Bool-cases (u.for_role == [])) [
    | inl f ↦ (text_beq_iff t.for_role []).0 e ∙ sym ((text_beq_iff u.for_role []).0 f)
    | inr f ↦ cc (rw (e, f) at h)
  ]
  | inr e ↦ elim (Bool-cases (u.for_role == [])) [
    | inl f ↦ cc (rw (e, f) at h)
    | inr f ↦
        quote-injective t.for_role u.for_role
          (cons_parts b'|' b'|' (quote t.for_role) (quote u.for_role) (rw (e, f) at h)).1
  ]
]

quote-ne-hash : (a x y : Text) → quote a ++ x ≢ b'#' ∷ y
unfolding quote
quote-ne-hash a x y h = ground arith

-- The names agree where no OID stands in for them, and so does what follows.
key_name_unambiguous :
    (t u : GrantTarget) (x y : Text)
    → key_name t ++ b'|' ∷ x ≡ key_name u ++ b'|' ∷ y
    → (t.oid ≡ u.oid) × (t.oid ≡ 0 → t.name ≡ u.name) × (x ≡ y)
unfolding key_name
key_name_unambiguous t u x y h = elim (Bool-cases (t.oid == 0)) [
  | inl e ↦ elim (Bool-cases (u.oid == 0)) [
    | inl f ↦
        let (same, rest) = quote_unambiguous t.name u.name (b'|' ∷ x) (b'|' ∷ y) (rw (e, f) at h) in
        (ground arith, λ _. same, (cons_parts b'|' b'|' x y rest).1)
    | inr f ↦ absurd (quote-ne-hash t.name (b'|' ∷ x) _ (rw (e, f) at h))
  ]
  | inr e ↦ elim (Bool-cases (u.oid == 0)) [
    | inl f ↦ absurd (quote-ne-hash u.name (b'|' ∷ y) _ (sym (rw (e, f) at h)))
    | inr f ↦
        let (same, rest) =
          split_unambiguous b'|' (format_int t.oid) (format_int u.oid) x y (format_int-no_bar t.oid)
            (format_int-no_bar u.oid) (cons_parts b'#' b'#' _ _ (rw (e, f) at h)).1 in
        (format_int-injective t.oid u.oid same, λ z. absurd (ground arith), rest)
  ]
]

key_injective :
    (t u : GrantTarget) → HasNoBar t.kind → HasNoBar u.kind → key t ≡ key u → SameKey t u
key_injective t u ht hu h =
    let (kind, later) =
      split_unambiguous b'|' t.kind u.kind _ _ ht hu (sym (key_parts t) ∙ h ∙ key_parts u) in
    let (oid, name, rest) = key_name_unambiguous t u _ _ later in
    let (grantee, end) = quote_unambiguous t.grantee u.grantee (key_end t) (key_end u) rest in
    record {
      kind = kind;
      grantee = grantee;
      for_role = key_end-injective t u end;
      oid = oid;
      name = name;
    }

key_of_SameKey : (t u : GrantTarget) → SameKey t u → key t ≡ key u
unfolding key key_name
key_of_SameKey t u s = elim (Bool-cases (t.oid == 0)) [
  | inl e ↦ cc (s.kind, s.grantee, s.for_role, s.oid, s.name (ground arith))
  | inr e ↦ rw (← s.oid, e, s.kind, s.grantee, s.for_role)
]

-- Two targets have one ledger key exactly when they agree in kind, grantee, the role of default
-- privileges and OID, and in name where the OID is 0, for kinds without a `|`.
pub key-eq_iff :
    (t u : GrantTarget) → HasNoBar t.kind → HasNoBar u.kind → (key t ≡ key u) ↔ SameKey t u
key-eq_iff t u ht hu = (key_injective t u ht hu, key_of_SameKey t u)
