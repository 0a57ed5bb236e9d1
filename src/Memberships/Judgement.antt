-- ===== src/Memberships/Judgement.antt =====
-- What the loops over the policy checks of `reconcileMemberships` find.
use pgop.Prelude.{
  true, false, List, [], ◌∷◌, ◌≡◌, ap, arith, ◌==◌, contains, Option, none, some, ok, >>=-eq-ok,
  Bool-cases, inl, inr, eq_of_==,
}
use pgop.Text.{Text, text_eq}
use pgop.Policy.Roles.{Problem}
use pgop.Policy.Membership.Options.{RoleMembership}
use pgop.Memberships.{roles_of, Checked, Judged, judge, judge_all, also_forbidden, forbidden_of}

module _ (problem : Checked) where
  pub judge_all-Allowed :
      (ds : List RoleMembership) (out : Judged) (r : Text)
      → judge_all problem ds ≡ ok out
      → contains (roles_of out.0) r ≡ true
      → (contains (roles_of ds) r ≡ true) × (problem r ≡ ok none)
  unfolding judge_all contains
  judge_all-Allowed [] out r h k = ground (arith, h, k)
  judge_all-Allowed (d ∷ ds) out r h k =
      let (p, e, h1) = >>=-eq-ok (problem d.role) _ h in
      let (rest, f, h2) = >>=-eq-ok (judge_all problem ds) _ h1 in
      let same : judge d p rest ≡ out = cc h2 in head p rest e same (judge_all-Allowed ds rest r f)
    where
      head :
          (p : Option Problem) (rest : Judged)
          → problem d.role ≡ ok p
          → judge d p rest ≡ out
          → (contains (roles_of rest.0) r ≡ true
              → (contains (roles_of ds) r ≡ true) × (problem r ≡ ok none))
          → (contains (roles_of (d ∷ ds)) r ≡ true) × (problem r ≡ ok none)
      head none rest e same ih = elim (Bool-cases (d.role == r)) [
        | inl q ↦ (ground (arith, q), ground (e, ap problem (eq_of_== d.role r q), arith))
        | inr q ↦ let (a, b) = ih (ground (arith, same, q, k)) in (ground (arith, a), b)
      ]
      head (some x) rest e same ih =
          let (a, b) = ih (ground (arith, same, k)) in (ground (arith, a), b)

  pub judge_all-Refused :
      (ds : List RoleMembership) (out : Judged) (r : Text)
      → judge_all problem ds ≡ ok out
      → contains (roles_of ds) r ≡ true
      → contains (roles_of out.0) r ≡ false
      → (p : Problem) × (problem r ≡ ok (some p))
  unfolding judge_all contains
  judge_all-Refused [] out r h k l = cc
  judge_all-Refused (d ∷ ds) out r h k l =
      let (p, e, h1) = >>=-eq-ok (problem d.role) _ h in
      let (rest, f, h2) = >>=-eq-ok (judge_all problem ds) _ h1 in
      let same : judge d p rest ≡ out = cc h2 in head p rest e same (judge_all-Refused ds rest r f)
    where
      head :
          (p : Option Problem) (rest : Judged)
          → problem d.role ≡ ok p
          → judge d p rest ≡ out
          → (contains (roles_of ds) r ≡ true
              → contains (roles_of rest.0) r ≡ false
              → (p : Problem) × (problem r ≡ ok (some p)))
          → (p : Problem) × (problem r ≡ ok (some p))
      head none rest e same ih = elim (Bool-cases (d.role == r)) [
        | inl q ↦ ground (arith, same, q, l)
        | inr q ↦ ih (ground (arith, q, k)) (ground (arith, same, q, l))
      ]
      head (some x) rest e same ih = elim (Bool-cases (d.role == r)) [
        | inl q ↦ (x, ground (arith, e, ap problem (eq_of_== d.role r q)))
        | inr q ↦ ih (ground (arith, q, k)) (ground (arith, same, l))
      ]

  pub forbidden_of-Forbidden :
      (ms out : List Text) (r : Text)
      → forbidden_of problem ms ≡ ok out
      → contains out r ≡ true
      → (contains ms r ≡ true) × ((p : Problem) × (problem r ≡ ok (some p)))
  unfolding forbidden_of contains
  forbidden_of-Forbidden [] out r h k = ground (arith, h, k)
  forbidden_of-Forbidden (m ∷ ms) out r h k =
      let (p, e, h1) = >>=-eq-ok (problem m) _ h in
      let (rest, f, h2) = >>=-eq-ok (forbidden_of problem ms) _ h1 in
      let same : also_forbidden m p rest ≡ out = cc h2 in
      head p rest e same (forbidden_of-Forbidden ms rest r f)
    where
      head :
          (p : Option Problem) (rest : List Text)
          → problem m ≡ ok p
          → also_forbidden m p rest ≡ out
          → (contains rest r ≡ true
              → (contains ms r ≡ true) × ((p : Problem) × (problem r ≡ ok (some p))))
          → (contains (m ∷ ms) r ≡ true) × ((p : Problem) × (problem r ≡ ok (some p)))
      head none rest e same ih = let (a, b) = ih (ground (arith, same, k)) in (ground (arith, a), b)
      head (some x) rest e same ih = elim (Bool-cases (m == r)) [
        | inl q ↦ (ground (arith, q), (x, ground (arith, e, ap problem (eq_of_== m r q))))
        | inr q ↦ let (a, b) = ih (ground (arith, same, k, q)) in (ground (arith, a), b)
      ]
