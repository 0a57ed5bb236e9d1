-- ===== src/Policy/Ownership/Laws.antt =====
-- What ownership decisions rest on.
use pgop.Prelude.{
  [], ◌∷◌, ◌++◌, Option, none, some, eq_of_==, ◌∙◌, Bool-cases, Bool, true, false, not, ◌≡◌, ◌≢◌,
  ◌↔◌, refl, ap, arith, ◌==◌, if◌then◌else◌, All, is_empty, inl, inr, ◌⊎◌,
}
use pgop.Text.{Text, text_eq, text, text_beq_iff}
use pgop.Text.Strings.{cut_prefix, cut, cut_prefix-append, cut-append, cut_prefix-some, cut-some}
use pgop.Policy.Ownership.{
  MarkerSigner, owned, owned_remark, marker_head, marker, other_key_marker, verify,
  refreshable_comment, decide_ownership, legacy_marker, other_id, other_key,
}

module _ (key_id : Text → Text) (mac : Text → Text → Text) (s : MarkerSigner)
    (kind name : Text) where
  -- The comment is the marker that the signer writes; without a key there is none.
  abbrev pub IsSigned : Text → Type 0
  IsSigned comment = (is_empty s.key ≡ false) × (comment ≡ marker key_id mac s kind name)

  -- The comment may give way to a marker: it is empty, the unsigned marker, or a marker for the same
  -- kind and name with the ID of another key.
  abbrev pub IsReplaceable : Text → Type 0
  IsReplaceable comment =
      (comment ≡ [])
      ⊎ (comment ≡ text "pgop:v1:" ++ (kind ++ (b'/' ∷ name)))
      ⊎ ((id : Text) × (rest : Text) × (comment
            ≡ (text "pgop:v2:" ++ (kind ++ (b'/' ∷ (name ++ b':' ∷ [])))) ++ (id ++ b'.' ∷ rest))
          × All (λ c. c ≢ b'.') id
          × (id ≢ key_id s.key))

  verify_iff : (comment : Text) → (verify key_id mac s comment kind name ≡ true) ↔ IsSigned comment
  unfolding verify
  verify_iff comment =
      let m = marker key_id mac s kind name in
      (
        (λ h. (ground (arith, h), eq_of_== comment m (ground (arith, h)))),
        λ (key, same). ground (arith, key, (text_beq_iff comment m).1 same),
      )

  other_key-id :
      (comment : Text)
      → other_key_marker key_id mac s comment kind name ≡ true
      → IsReplaceable comment
  unfolding other_key_marker marker_head
  other_key-id comment h = of_rest (cut_prefix comment (marker_head key_id mac kind name)) refl h
    where
      of_halves :
          (rest : Text) (o : Option (Text × Text))
          → comment ≡ marker_head key_id mac kind name ++ rest
          → cut rest b'.' ≡ o
          → other_id key_id mac s o ≡ true
          → IsReplaceable comment
      of_halves rest none e c k = absurd (ground (arith, k))
      of_halves rest (some (id, tail)) e c k =
          let (whole, free) = cut-some rest b'.' c in
          inr (
            inr (
              id,
              tail,
              e ∙ ap (λ r. marker_head key_id mac kind name ++ r) whole,
              free,
              λ same. ground (arith, k, (text_beq_iff id (key_id s.key)).1 same),
            ))

      of_rest :
          (o : Option Text)
          → cut_prefix comment (marker_head key_id mac kind name) ≡ o
          → other_key key_id mac s o ≡ true
          → IsReplaceable comment
      of_rest none e k = absurd (ground (arith, k))
      of_rest (some rest) e k =
          of_halves rest (cut rest b'.')
            (cut_prefix-some comment (marker_head key_id mac kind name) e) refl k

  refreshable_iff :
      (comment : Text)
      → (refreshable_comment key_id mac s comment kind name ≡ true) ↔ IsReplaceable comment
  unfolding refreshable_comment legacy_marker other_key_marker marker_head
  refreshable_iff comment = (there, back)
    where
      legacy : Text
      legacy = text "pgop:v1:" ++ (kind ++ (b'/' ∷ name))

      empty : (t : Text) → is_empty t ≡ true → t ≡ []
      empty [] e = refl
      empty (c ∷ cs) e = cc e

      there : refreshable_comment key_id mac s comment kind name ≡ true → IsReplaceable comment
      there h = elim (Bool-cases (is_empty comment)) [
        | inl e ↦ inl (empty comment e)
        | inr e ↦ elim (Bool-cases (comment == legacy)) [
          | inl f ↦ inr (inl (eq_of_== comment legacy f))
          | inr f ↦ other_key-id comment (ground (arith, h, e, f))
        ]
      ]

      back : IsReplaceable comment → refreshable_comment key_id mac s comment kind name ≡ true
      back (inl e) = rw e refl
      back (inr (inl e)) = ground (arith, (text_beq_iff comment legacy).1 e)
      back (inr (inr (id, rest, e, free, other))) =
          let head = marker_head key_id mac kind name in
          let differs : (id == key_id s.key) ≡ false = elim (Bool-cases (id == key_id s.key)) [
            | inl x ↦ absurd (other (eq_of_== id (key_id s.key) x))
            | inr x ↦ x
          ] in
          let found : cut_prefix comment head ≡ some (id ++ b'.' ∷ rest) =
            ap (λ c. cut_prefix c head) e ∙ cut_prefix-append head (id ++ b'.' ∷ rest) in
          let other_marker : other_key_marker key_id mac s comment kind name ≡ true =
            ap (other_key key_id mac s) found
            ∙ ap (other_id key_id mac s) (cut-append id rest b'.' free)
            ∙ ap not differs in
          ground (arith, other_marker)

  -- An object is kept exactly when it exists, the status records it and its comment is the signer's
  -- marker for it; and it is marked anew exactly when it exists, the status records it, and its comment
  -- is not that marker but empty, the unsigned marker, or a marker with the ID of another key.
  pub decide_ownership_iff :
      (exists : Bool) (comment : Text) (recorded allowlisted : Bool)
      → let o = decide_ownership key_id mac s kind name exists comment recorded allowlisted in
        ((o ≡ owned) ↔ ((exists ≡ true) × (recorded ≡ true) × IsSigned comment))
        × ((o ≡ owned_remark) ↔ (
            (exists ≡ true) × (recorded ≡ true) × (IsSigned comment → ⊥) × IsReplaceable comment))
  unfolding decide_ownership
  decide_ownership_iff exists comment recorded allowlisted = (
    (
      (λ h. (ground (arith, h), ground (arith, h), (verify_iff comment).0 (ground (arith, h)))),
      λ (e, r, m). ground (arith, e, r, (verify_iff comment).1 m),
    ),
    (
      (λ h. (
        ground (arith, h),
        ground (arith, h),
        (λ m. ground (arith, h, (verify_iff comment).1 m)),
        (refreshable_iff comment).0 (ground (arith, h)),
      )),
      λ (e, r, n, m).
          let unsigned : verify key_id mac s comment kind name ≡ false =
            elim (Bool-cases (verify key_id mac s comment kind name)) [
              | inl x ↦ absurd (n ((verify_iff comment).0 x))
              | inr x ↦ x
            ] in
          ground (arith, e, r, unsigned, (refreshable_iff comment).1 m),
    ),
  )

  -- The text after the head of a marker is cut at the dot behind its key ID.
  cut-marker :
      (t : MarkerSigner)
      → All (λ c. c ≢ b'.') (key_id t.key)
      → (rest : Text) × (cut_prefix
            (marker key_id mac t kind name)
            (marker_head key_id mac kind name)
          ≡ some rest)
        × (id : Text × Text) × (cut rest b'.' ≡ some id)
        × (id.0 ≡ key_id t.key)
  unfolding marker
  cut-marker t h = (
    _,
    cut_prefix-append (marker_head key_id mac kind name) _,
    _,
    cut-append (key_id t.key) _ b'.' h,
    refl,
  )

  -- A marker of another key is one that may be replaced, and the signer's own is not.
  other_key-marker :
      (t : MarkerSigner)
      → All (λ c. c ≢ b'.') (key_id t.key)
      → other_key_marker key_id mac s (marker key_id mac t kind name) kind name
        ≡ not (key_id t.key == key_id s.key)
  unfolding other_key_marker
  other_key-marker t h =
      let (rest, found, id, halves, same) = cut-marker t h in rw found (rw halves (rw same refl))

  verify-own :
      is_empty s.key ≡ false → verify key_id mac s (marker key_id mac s kind name) kind name ≡ true
  unfolding verify
  verify-own h = let m = marker key_id mac s kind name in ground (arith, text_beq_iff m m)

  verify-other :
      (t : MarkerSigner)
      → All (λ c. c ≢ b'.') (key_id t.key)
      → All (λ c. c ≢ b'.') (key_id s.key)
      → key_id t.key ≢ key_id s.key
      → verify key_id mac s (marker key_id mac t kind name) kind name ≡ false
  unfolding verify
  verify-other t ht hs ne =
      let m = marker key_id mac t kind name in
      let n = marker key_id mac s kind name in
      let ids : (m ≡ n) → ⊥ = λ e. ne (
        (text_beq_iff (key_id t.key) (key_id s.key)).0 (
          ground (
            arith,
            other_key-marker t ht,
            other_key-marker s hs,
            ap (λ c. other_key_marker key_id mac s c kind name) e,
            text_beq_iff (key_id s.key) (key_id s.key),
          ))) in
      ground (arith, ids, text_beq_iff m n)

  refreshable-other :
      (t : MarkerSigner)
      → All (λ c. c ≢ b'.') (key_id t.key)
      → key_id t.key ≢ key_id s.key
      → refreshable_comment key_id mac s (marker key_id mac t kind name) kind name ≡ true
  unfolding refreshable_comment
  refreshable-other t ht ne =
      ground (arith, other_key-marker t ht, text_beq_iff (key_id t.key) (key_id s.key))

  -- An object with the signer's own marker is kept, and one with the marker of a lost key is marked
  -- anew, where the status records it and the key is not empty; key IDs hold no dot.
  pub decide_ownership-marker :
      (t : MarkerSigner) (allowlisted : Bool)
      → All (λ c. c ≢ b'.') (key_id t.key)
      → All (λ c. c ≢ b'.') (key_id s.key)
      → is_empty s.key ≡ false
      → (t ≡ s) ⊎ (key_id t.key ≢ key_id s.key)
      → decide_ownership key_id mac s kind name true
          (marker key_id mac t kind name)
          true
          allowlisted
        ≡ (if key_id t.key == key_id s.key then owned else owned_remark)
  unfolding decide_ownership
  decide_ownership-marker t allowlisted ht hs key (inl e) =
      rw e (ground (arith, verify-own key, text_beq_iff (key_id s.key) (key_id s.key)))
  decide_ownership-marker t allowlisted ht hs key (inr ne) = ground (
    arith,
    verify-other t ht hs ne,
    refreshable-other t ht ne,
    text_beq_iff (key_id t.key) (key_id s.key),
  )
