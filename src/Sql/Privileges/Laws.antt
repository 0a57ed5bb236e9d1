-- ===== src/Sql/Privileges/Laws.antt =====
-- The canonical form of privilege lists, whatever the allow-list and the expansion of its words.
use pgop.Prelude.{
  true, ◌||◌, List, [], ◌∷◌, ◌++◌, ◌≡◌, refl, arith, ap, ◌==◌, map, if◌then◌else◌, contains,
  contains-append, ok, Bool-cases, inl, inr, ==-refl, eq_of_==,
}
use pgop.Text.{Text, text_eq}
use pgop.Sql.Privileges.{privilege_word, check_each, expand_all}

contains-add_once :
    (out : List Text) (u q : Text)
    → contains (if contains out u then out else out ++ u ∷ []) q ≡ (contains out q || (u == q))
unfolding contains
contains-add_once out u q = elim (Bool-cases (contains out u)) [
  | inr e ↦ ground (arith, e, contains-append out (u ∷ []) q)
  | inl e ↦ elim (Bool-cases (u == q)) [
    | inl f ↦ ground (arith, e, f, ap (contains out) (eq_of_== u q f))
    | inr f ↦ ground (arith, e, f)
  ]
]

pub check_each-contains :
    (kind : Text) (allowed out ps r : List Text)
    → check_each kind allowed out ps ≡ ok r
    → (q : Text) → contains r q ≡ (contains out q || contains (map privilege_word ps) q)
unfolding check_each contains
check_each-contains kind allowed out [] r h q = ground (arith, h)
check_each-contains kind allowed out (p ∷ ps) r h q =
    let ih =
      check_each-contains kind allowed
        (if contains out (privilege_word p) then out else out ++ privilege_word p ∷ []) ps r
        (ground (arith, h)) q in
    ground (arith, ih, contains-add_once out (privilege_word p) q)

pub check_each-allowed :
    (kind : Text) (allowed out ps r : List Text)
    → check_each kind allowed out ps ≡ ok r
    → (q : Text) → contains (map privilege_word ps) q ≡ true
    → contains allowed q ≡ true
unfolding check_each contains
check_each-allowed kind allowed out [] r h q m = cc
check_each-allowed kind allowed out (p ∷ ps) r h q m = elim (Bool-cases (privilege_word p == q)) [
  | inl e ↦ ground (arith, h, ap (contains allowed) (eq_of_== (privilege_word p) q e))
  | inr e ↦
      check_each-allowed kind allowed
        (if contains out (privilege_word p) then out else out ++ privilege_word p ∷ []) ps r
        (ground (arith, h)) q (ground (arith, m))
]

pub check_each-total :
    (kind : Text) (allowed out ps : List Text)
    → ((q : Text) → contains (map privilege_word ps) q ≡ true → contains allowed q ≡ true)
    → (r : List Text) × (check_each kind allowed out ps ≡ ok r)
unfolding check_each contains
check_each-total kind allowed out [] h = (out, refl)
check_each-total kind allowed out (p ∷ ps) h =
    let (r, e) =
      check_each-total kind allowed
        (if contains out (privilege_word p) then out else out ++ privilege_word p ∷ []) ps
        (λ q m. h q (ground (arith, m))) in
    (r, ground (arith, e, h (privilege_word p), ==-refl (privilege_word p)))

pub contains-expand_all :
    (expand : Text → List Text) (xs : List Text) (p q : Text)
    → contains xs p ≡ true
    → contains (expand p) q ≡ true
    → contains (expand_all expand xs) q ≡ true
unfolding expand_all contains
contains-expand_all expand [] p q h k = cc
contains-expand_all expand (x ∷ xs) p q h k = elim (Bool-cases (x == p)) [
  | inl e ↦ ground (
    arith,
    k,
    contains-append (expand x) (expand_all expand xs) q,
    ap (λ y. contains (expand y) q) (eq_of_== x p e),
  )
  | inr e ↦ ground (
    arith,
    contains-append (expand x) (expand_all expand xs) q,
    contains-expand_all expand xs p q (ground (arith, h)) k,
  )
]

pub expand_all-contains :
    (expand : Text → List Text) (xs : List Text) (q : Text)
    → contains (expand_all expand xs) q ≡ true
    → (p : Text) × (contains xs p ≡ true) × (contains (expand p) q ≡ true)
unfolding expand_all contains
expand_all-contains expand [] q h = cc
expand_all-contains expand (x ∷ xs) q h = elim (Bool-cases (contains (expand x) q)) [
  | inl e ↦ (x, ground (arith, ==-refl x), e)
  | inr e ↦
      let (p, m, k) =
        expand_all-contains expand xs q
          (ground (arith, h, contains-append (expand x) (expand_all expand xs) q)) in
      (p, ground (arith, m), k)
]
