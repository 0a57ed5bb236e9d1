-- ===== src/Memberships/Statements.antt =====
-- Which statements `reconcileMemberships` makes.
use pgop.Prelude.{
  Bool, true, false, ◌&&◌, List, [], ◌∷◌, ◌++◌, ◌≡◌, ◌⊎◌, refl, ◌∙◌, ap, arith, ◌==◌, contains,
  contains-append, if◌then◌else◌, is_empty, Option, none, some, Result, ok, err, >>=-eq-ok,
  Bool-cases, inl, inr, eq_of_==, ==-refl, All, All-of_contains,
}
use pgop.Text.{Text, text_eq}
use pgop.Text.Sort.{sort, compact, contains-sort, contains-compact}
use pgop.Grants.Engine.{CallError}
use pgop.Policy.Roles.{Problem}
use pgop.Policy.Membership.Options.{RoleMembership}
use pgop.Memberships.{
  Current, roles_of, needs_grant, grants_of, admin_revokes_of, revokes_of, diff_memberships,
  Statement, Log, Checked, Client, judge_all, forbidden_of,
}
use pgop.Memberships.Judgement.{judge_all-Allowed, judge_all-Refused, forbidden_of-Forbidden}
use pgop.Memberships.Safety.{IsOk, AllGrants, run_plan-IsOk}
use pgop.Memberships.Reconcile.{
  or_call_failed, check_options, Prepared, prepare, Run, run_plan, existing_of, plan_for,
  record_run, apply_prepared, reconcile_memberships, MembershipError,
}

or_call_failed-ok :
    {A : Type 0} (m : Result CallError A) (a : A) → or_call_failed m ≡ ok a → m ≡ ok a
or_call_failed-ok (ok b) a h = ap ok (cc h)
or_call_failed-ok (err e) a h = cc h

all_grants :
    (P A R : Text → Type 0) (current : Current) (ds : List RoleMembership)
    → ((r : Text) → contains (roles_of ds) r ≡ true → P r)
    → AllGrants P A R (grants_of ds current)
unfolding grants_of contains
all_grants P A R current [] h = refl
all_grants P A R current (d ∷ ds) h =
    let ih = all_grants P A R current ds (λ r k. h r (ground (arith, k))) in
    elim (Bool-cases (needs_grant d (current d.role))) [
      | inl e ↦ rw (e, grants_of) (h d.role (ground (arith, ==-refl d.role)), ih)
      | inr e ↦ rw (e, grants_of) ih
    ]

contains-admin_revokes_of :
    (current : Current) (ds : List RoleMembership) (r : Text)
    → contains (admin_revokes_of ds current) r ≡ true
    → contains (roles_of ds) r ≡ true
unfolding admin_revokes_of contains
contains-admin_revokes_of current [] r h = cc
contains-admin_revokes_of current (d ∷ ds) r h =
    ground (arith, h, contains-admin_revokes_of current ds r)

contains-revokes_of :
    (current : Current) (desired : List RoleMembership) (ms : List Text) (r : Text)
    → contains (revokes_of desired ms current) r ≡ true
    → (contains ms r ≡ true) × (contains (roles_of desired) r ≡ false)
unfolding revokes_of contains
contains-revokes_of current desired [] r h = cc
contains-revokes_of current desired (m ∷ ms) r h = elim (Bool-cases (m == r)) [
  | inr q ↦ elim (Bool-cases (contains (revokes_of desired ms current) r)) [
    | inl k ↦ let (a, b) = contains-revokes_of current desired ms r k in (ground (arith, a), b)
    | inr k ↦ ground (arith, h, q, k)
  ]
  | inl q ↦ (
    ground (arith, q),
    elim (Bool-cases (contains (revokes_of desired ms current) r)) [
      | inl k ↦ (contains-revokes_of current desired ms r k).1
      | inr k ↦ ground (arith, h, q, k, ap (contains (roles_of desired)) (eq_of_== m r q))
    ],
  )
]

contains-existing_of :
    (current : Current) (ms : List Text) (r : Text)
    → contains (existing_of current ms) r ≡ true
    → contains ms r ≡ true
unfolding existing_of contains
contains-existing_of current [] r h = cc
contains-existing_of current (m ∷ ms) r h = ground (arith, h, contains-existing_of current ms r)

module _ (problem : Checked) (requested : List RoleMembership) (managed : List Text)
    (revoke_removed : Bool) where
  -- A requested membership that the policy allows.
  abbrev pub IsAllowed : Text → Type 0
  IsAllowed r = (contains (roles_of requested) r ≡ true) × (problem r ≡ ok none)

  -- A membership that the status lists as managed, and that the policy forbids, or that is no longer requested
  -- while removed memberships are to be revoked.
  abbrev pub MayRevoke : Text → Type 0
  MayRevoke r =
      (contains managed r ≡ true)
      × (((p : Problem) × (problem r ≡ ok (some p)))
          ⊎ ((revoke_removed ≡ true) × (contains (roles_of requested) r ≡ false)))

  abbrev pub IsSafe : Statement → Type 0
  IsSafe = IsOk IsAllowed IsAllowed MayRevoke

  -- What `prepare` finds.
  record IsPrepared (p : Prepared) : Type 0 where
    desired_allowed : (r : Text) → contains (roles_of p.desired) r ≡ true → IsAllowed r
    others_refused :
        (r : Text)
        → contains (roles_of requested) r ≡ true
        → contains (roles_of p.desired) r ≡ false
        → (x : Problem) × (problem r ≡ ok (some x))
    forbidden_managed :
        (r : Text)
        → contains p.forbidden r ≡ true
        → (contains managed r ≡ true) × ((x : Problem) × (problem r ≡ ok (some x)))

  no_longer_desired :
      (p : Prepared) (r : Text)
      → IsPrepared p
      → revoke_removed ≡ true
      → contains (revokes_of p.desired managed p.current) r ≡ true
      → MayRevoke r
  no_longer_desired p r i on h =
      let (m, d) = contains-revokes_of p.current p.desired managed r h in
      elim (Bool-cases (contains (roles_of requested) r)) [
        | inl q ↦ (m, inl (i.others_refused r q d))
        | inr q ↦ (m, inr (on, q))
      ]

  plan_revokes :
      (p : Prepared) (r : Text)
      → IsPrepared p
      → contains (plan_for p managed revoke_removed).revoke r ≡ true
      → MayRevoke r
  unfolding plan_for diff_memberships contains
  plan_revokes p r i h =
      let removed =
        if revoke_removed then compact (sort (revokes_of p.desired managed p.current)) else [] in
      let both =
        contains-compact (sort (removed ++ existing_of p.current p.forbidden)) r
        ∙ contains-sort (removed ++ existing_of p.current p.forbidden) r
        ∙ contains-append removed (existing_of p.current p.forbidden) r in
      elim (Bool-cases (contains (existing_of p.current p.forbidden) r)) [
        | inl f ↦
            let (m, x) = i.forbidden_managed r (contains-existing_of p.current p.forbidden r f) in
            (m, inl x)
        | inr f ↦
            let listed : contains removed r ≡ true = ground (arith, h, both, f) in
            of_removed p r i listed
      ]
    where
      of_removed :
          (p : Prepared) (r : Text)
          → IsPrepared p
          → contains
              (if revoke_removed
                then compact (sort (revokes_of p.desired managed p.current))
                else [])
              r
            ≡ true
          → MayRevoke r
      of_removed p r i h = elim (Bool-cases revoke_removed) [
        | inr off ↦ ground (arith, h, off)
        | inl on ↦ no_longer_desired p r i on (
            ground (
              arith,
              on,
              h,
              contains-compact (sort (revokes_of p.desired managed p.current)) r,
              contains-sort (revokes_of p.desired managed p.current) r,
            ))
      ]

  plan-IsSafe :
      (client : Client) (p : Prepared) (log : Log) (tracked : List Text)
      → IsPrepared p
      → All IsSafe log
      → All IsSafe (run_plan client (plan_for p managed revoke_removed) tracked log).log
  unfolding plan_for diff_memberships
  plan-IsSafe client p log tracked i h =
      run_plan-IsOk IsAllowed IsAllowed MayRevoke client (plan_for p managed revoke_removed) tracked
        log (all_grants IsAllowed IsAllowed MayRevoke p.current p.desired i.desired_allowed)
        (All-of_contains IsAllowed (admin_revokes_of p.desired p.current)
          (λ r k. i.desired_allowed r (contains-admin_revokes_of p.current p.desired r k)))
        (All-of_contains MayRevoke (plan_for p managed revoke_removed).revoke
          (λ r k. plan_revokes p r i k))
        h

  prepare-IsPrepared :
      (client : Client) (p : Prepared)
      → prepare problem client requested managed ≡ ok p
      → IsPrepared p
  unfolding prepare
  prepare-IsPrepared client p h =
      let (judged, e1, h1) = >>=-eq-ok (or_call_failed (judge_all problem requested)) _ h in
      let (forbidden, e2, h2) = >>=-eq-ok (or_call_failed (forbidden_of problem managed)) _ h1 in
      let (version, e3, h3) = >>=-eq-ok (or_call_failed client.version) _ h2 in
      let (checked, e4, h4) = >>=-eq-ok (check_options version judged.0) _ h3 in
      let (current, e5, h5) = >>=-eq-ok (or_call_failed client.current) _ h4 in
      let desired : judged.0 ≡ p.desired = cc h5 in
      let found : forbidden ≡ p.forbidden = cc h5 in
      let judging = or_call_failed-ok (judge_all problem requested) judged e1 in
      let forbidding = or_call_failed-ok (forbidden_of problem managed) forbidden e2 in
      record {
        desired_allowed = λ r k.
            judge_all-Allowed problem requested judged r judging (ground (arith, desired, k));
        others_refused = λ r k l.
            judge_all-Refused problem requested judged r judging k (ground (arith, desired, l));
        forbidden_managed = λ r k.
            forbidden_of-Forbidden problem managed forbidden r forbidding
              (ground (arith, found, k));
      }

  -- Whatever the server answers, every membership that `reconcileMemberships` grants, and every
  -- admin option that it takes back, is of a requested role that the policy allows, and every
  -- membership that it revokes is in the list of managed memberships of the status, and the policy
  -- forbids it or it is no longer requested while removed memberships are to be revoked.
  pub reconcile_memberships-IsSafe :
      (client : Client)
      → All IsSafe (reconcile_memberships problem client requested managed revoke_removed []).log
  unfolding reconcile_memberships apply_prepared
  reconcile_memberships-IsSafe client = elim (Bool-cases (is_empty requested && is_empty managed)) [
    | inl e ↦ rw (e, reconcile_memberships) tt
    | inr e ↦ rw (e, reconcile_memberships) (after (prepare problem client requested managed) refl)
  ]
    where
      logged :
          (p : Prepared) (run : Run) (o : Option CallError)
          → All IsSafe run.log
          → All IsSafe (record_run p run o).log
      logged p run (some e) h = h
      logged p run none h = h

      after :
          (r : Result MembershipError Prepared)
          → prepare problem client requested managed ≡ r
          → All IsSafe (apply_prepared client managed revoke_removed [] r).log
      after (err e) f = tt
      after (ok p) f =
          let tracked = managed ++ existing_of p.current (roles_of p.desired) in
          let run = run_plan client (plan_for p managed revoke_removed) tracked [] in
          logged p run run.error
            (plan-IsSafe client p [] tracked (prepare-IsPrepared client p f) tt)
