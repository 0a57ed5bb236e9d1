-- ===== src/Sql/Privileges/Normal.antt =====
-- The canonical form of the privileges of a database and of a schema.
use pgop.Prelude.{
  Bool, true, false, List, [], ◌∷◌, ◌≡◌, refl, sym, arith, ◌∙◌, ap, map, contains, contains-head,
  Result, ok, ◌>>=◌, >>=-eq-ok, ==-refl, All, of_contains, All-of_contains,
}
use pgop.Text.{Text, text_eq, text}
use pgop.Text.Sort.{sort, compact, IsStrict, contains-sort, contains-compact, compact-sort-IsStrict}
use pgop.Text.Sort.Extensional.{IsStrict-ext, SameElements}
use pgop.Text.Strings.{join, fields, to_upper}
use pgop.Sql.Privileges.{
  SqlError, privilege_word, check_privileges, expand_all, privilege_connect, privilege_create,
  privilege_temporary, privilege_usage, database_privileges, schema_privileges,
  expand_database_privilege, expand_schema_privilege, normalize_database_privileges,
  normalize_schema_privileges,
}
use pgop.Sql.Privileges.Laws.{
  check_each-contains, check_each-allowed, check_each-total, contains-expand_all,
  expand_all-contains,
}

same_truth : (a b : Bool) → (a ≡ true → b ≡ true) → (b ≡ true → a ≡ true) → a ≡ b
same_truth true b h k = sym (h refl)
same_truth false true h k = k refl
same_truth false false h k = refl

-- Two lists with the same members expand to the same members.
expand_all-same :
    (expand : Text → List Text) (xs ys : List Text)
    → SameElements xs ys
    → SameElements (expand_all expand xs) (expand_all expand ys)
expand_all-same expand xs ys same q =
    same_truth (contains (expand_all expand xs) q) (contains (expand_all expand ys) q)
      (moved xs ys same) (moved ys xs (λ a. sym (same a)))
  where
    moved :
        (us vs : List Text)
        → SameElements us vs
        → contains (expand_all expand us) q ≡ true
        → contains (expand_all expand vs) q ≡ true
    moved us vs s h =
        let (p, m, k) = expand_all-contains expand us q h in
        contains-expand_all expand vs p q (sym (s p) ∙ m) k

-- What a list of privileges stands for: each word is read as the statement writes it, and expanded.
abbrev pub meant : (Text → List Text) → List Text → List Text
meant expand privs = expand_all expand (map privilege_word privs)

-- The words that an allow-list expands to: they stand for themselves.
record IsExpansion (allowed : List Text) (expand : Text → List Text) (base : List Text)
    : Type 0 where
  base_word : All (λ p. privilege_word p ≡ p) base
  base_allowed : All (λ p. contains allowed p ≡ true) base
  base_expand : All (λ p. expand p ≡ p ∷ []) base
  expand_base : All (λ p. All (λ q. contains base q ≡ true) (expand p)) allowed
  expand_some : All (λ p. (q : Text) × (contains (expand p) q ≡ true)) allowed

module _ (kind : Text) (allowed : List Text) (expand : Text → List Text) (base : List Text)
    (v : IsExpansion allowed expand base) where
  abbrev normalize : List Text → Result SqlError (List Text)
  normalize privs = check_privileges kind privs allowed >>= λ checked.
      ok (compact (sort (expand_all expand checked)))

  checked-same :
      (privs checked : List Text)
      → check_privileges kind privs allowed ≡ ok checked
      → SameElements checked (map privilege_word privs)
  unfolding check_privileges contains
  checked-same [] checked h = cc
  checked-same (p ∷ ps) checked h = check_each-contains kind allowed [] (p ∷ ps) checked h

  sorted-same : (xs : List Text) → SameElements (compact (sort xs)) xs
  sorted-same xs a = contains-compact (sort xs) a ∙ contains-sort xs a

  normalize-same :
      (privs out : List Text) → normalize privs ≡ ok out → SameElements out (meant expand privs)
  normalize-same privs out h a =
      let (checked, c, e) =
        >>=-eq-ok (check_privileges kind privs allowed)
          (λ checked. ok (compact (sort (expand_all expand checked)))) h in
      let counted = sorted-same (expand_all expand checked) a in
      let same =
        expand_all-same expand checked (map privilege_word privs) (checked-same privs checked c)
          a in
      ground (arith, e, counted, same)

  allowed_of :
      (privs checked : List Text)
      → check_privileges kind privs allowed ≡ ok checked
      → (p : Text) → contains checked p ≡ true
      → contains allowed p ≡ true
  unfolding check_privileges
  allowed_of [] checked c p k = cc
  allowed_of (x ∷ xs) checked c p k =
      check_each-allowed kind allowed [] (x ∷ xs) checked c p
        (sym (checked-same (x ∷ xs) checked c p) ∙ k)

  member_of_base :
      (privs out : List Text)
      → normalize privs ≡ ok out
      → (q : Text) → contains out q ≡ true
      → contains base q ≡ true
  member_of_base privs out h q m =
      let (checked, c, e) =
        >>=-eq-ok (check_privileges kind privs allowed)
          (λ checked. ok (compact (sort (expand_all expand checked)))) h in
      let (p, k, l) =
        expand_all-contains expand checked q
          (ground (arith, e, m, sorted-same (expand_all expand checked) q)) in
      of_contains (λ q. contains base q ≡ true) (expand p) q
        (of_contains (λ p. All (λ q. contains base q ≡ true) (expand p)) allowed p v.expand_base
          (allowed_of privs checked c p k))
        l

  -- The words of the base stand for themselves.
  meant-base :
      (xs : List Text)
      → ((q : Text) → contains xs q ≡ true → contains base q ≡ true)
      → meant expand xs ≡ xs
  unfolding expand_all contains
  meant-base [] h = refl
  meant-base (x ∷ xs) h =
      let b = h x (ground (arith, ==-refl x)) in
      let w = of_contains (λ p. privilege_word p ≡ p) base x v.base_word b in
      let e = of_contains (λ p. expand p ≡ p ∷ []) base x v.base_expand b in
      let ih = meant-base xs (λ q m. h q (ground (arith, m))) in ground (arith, ih, ap expand w, e)

  words :
      (xs : List Text)
      → ((q : Text) → contains xs q ≡ true → contains base q ≡ true)
      → SameElements (map privilege_word xs) xs
  unfolding contains
  words [] h a = refl
  words (x ∷ xs) h a =
      let b = h x (ground (arith, ==-refl x)) in
      let w = of_contains (λ p. privilege_word p ≡ p) base x v.base_word b in
      ground (arith, w, words xs (λ q m. h q (ground (arith, m))) a)

  normalize-IsStrict : (privs out : List Text) → normalize privs ≡ ok out → IsStrict out
  normalize-IsStrict privs out h =
      let (checked, c, e) =
        >>=-eq-ok (check_privileges kind privs allowed)
          (λ checked. ok (compact (sort (expand_all expand checked)))) h in
      let same : compact (sort (expand_all expand checked)) ≡ out = cc e in
      rw (← same) (compact-sort-IsStrict (expand_all expand checked))

  normalize-some :
      (privs out : List Text) → normalize privs ≡ ok out → (q : Text) × (contains out q ≡ true)
  unfolding check_privileges contains
  normalize-some [] out h = cc
  normalize-some (x ∷ xs) out h =
      let (checked, c, e) =
        >>=-eq-ok (check_privileges kind (x ∷ xs) allowed)
          (λ checked. ok (compact (sort (expand_all expand checked)))) h in
      let k : contains checked (privilege_word x) ≡ true =
        checked-same (x ∷ xs) checked c (privilege_word x)
        ∙ contains-head (privilege_word x) (map privilege_word xs) in
      let (q, m) =
        of_contains (λ p. (q : Text) × (contains (expand p) q ≡ true)) allowed (privilege_word x)
          v.expand_some (allowed_of (x ∷ xs) checked c (privilege_word x) k) in
      (
        q,
        ground (
          arith,
          e,
          sorted-same (expand_all expand checked) q,
          contains-expand_all expand checked (privilege_word x) q k m,
        ),
      )

  normalize-succeeds :
      (xs : List Text)
      → ((q : Text) → contains xs q ≡ true → contains base q ≡ true)
      → (q : Text) → contains xs q ≡ true
      → (out : List Text) × (normalize xs ≡ ok out)
  unfolding check_privileges contains
  normalize-succeeds [] h q m = cc
  normalize-succeeds (x ∷ xs) h q m =
      let (checked, e) = check_each-total kind allowed [] (x ∷ xs) (λ a k.
        of_contains (λ p. contains allowed p ≡ true) base a v.base_allowed
          (h a (sym (words (x ∷ xs) h a) ∙ k))) in
      (compact (sort (expand_all expand checked)), rw e refl)

  -- A canonical list is its own canonical form.
  normalize-idempotent : (privs out : List Text) → normalize privs ≡ ok out → normalize out ≡ ok out
  normalize-idempotent privs out h =
      let (q, m) = normalize-some privs out h in
      let inside = member_of_base privs out h in
      let (again, e) = normalize-succeeds out inside q m in
      let same : again ≡ out =
        IsStrict-ext again out (normalize-IsStrict out again e) (normalize-IsStrict privs out h)
          (λ a. normalize-same out again e a ∙ ap (λ l. contains l a) (meant-base out inside)) in
      e ∙ ap ok same

  normalize_lem :
      (privs out : List Text)
      → normalize privs ≡ ok out
      → IsStrict out
        × SameElements out (meant expand privs)
        × All (λ q. contains base q ≡ true) out
        × (normalize out ≡ ok out)
  normalize_lem privs out h = (
    normalize-IsStrict privs out h,
    normalize-same privs out h,
    All-of_contains (λ q. contains base q ≡ true) out (member_of_base privs out h),
    normalize-idempotent privs out h,
  )

abbrev pub database_base : List Text
database_base = privilege_connect ∷ privilege_create ∷ privilege_temporary ∷ []

abbrev pub schema_base : List Text
schema_base = privilege_create ∷ privilege_usage ∷ []

database-IsExpansion : IsExpansion database_privileges expand_database_privilege database_base
unfolding privilege_word expand_database_privilege contains join to_upper fields pgop.Text.text_beq
database-IsExpansion = record {
  base_word = (refl, (refl, (refl, tt)));
  base_allowed = (refl, (refl, (refl, tt)));
  base_expand = (refl, (refl, (refl, tt)));
  expand_base =
      ((refl, tt), ((refl, tt), ((refl, tt), ((refl, tt), ((refl, (refl, (refl, tt))), tt)))));
  expand_some = (
    (privilege_connect, refl),
    (
      (privilege_create, refl),
      ((privilege_temporary, refl), ((privilege_temporary, refl), ((privilege_connect, refl), tt))),
    ),
  );
}

schema-IsExpansion : IsExpansion schema_privileges expand_schema_privilege schema_base
unfolding privilege_word expand_schema_privilege contains join to_upper fields pgop.Text.text_beq
schema-IsExpansion = record {
  base_word = (refl, (refl, tt));
  base_allowed = (refl, (refl, tt));
  base_expand = (refl, (refl, tt));
  expand_base = ((refl, tt), ((refl, tt), ((refl, (refl, tt)), tt)));
  expand_some =
      ((privilege_usage, refl), ((privilege_create, refl), ((privilege_create, refl), tt)));
}

-- A canonical list of database privileges is sorted without duplicates, holds CONNECT, CREATE and
-- TEMPORARY only, and holds exactly what the words of the list stand for. It is its own canonical
-- form.
normalize_database_privileges_lem :
    (privs out : List Text)
    → normalize_database_privileges privs ≡ ok out
    → IsStrict out
      × SameElements out (meant expand_database_privilege privs)
      × All (λ q. contains database_base q ≡ true) out
      × (normalize_database_privileges out ≡ ok out)
unfolding normalize_database_privileges
normalize_database_privileges_lem =
    normalize_lem (text "database") database_privileges expand_database_privilege database_base
      database-IsExpansion

-- A canonical list of schema privileges is sorted without duplicates, holds CREATE and USAGE only,
-- and holds exactly what the words of the list stand for. It is its own canonical form.
pub normalize_schema_privileges_lem :
    (privs out : List Text)
    → normalize_schema_privileges privs ≡ ok out
    → IsStrict out
      × SameElements out (meant expand_schema_privilege privs)
      × All (λ q. contains schema_base q ≡ true) out
      × (normalize_schema_privileges out ≡ ok out)
unfolding normalize_schema_privileges
normalize_schema_privileges_lem =
    normalize_lem (text "schema") schema_privileges expand_schema_privilege schema_base
      schema-IsExpansion
