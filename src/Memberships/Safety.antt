-- ===== src/Memberships/Safety.antt =====
-- Which statements `reconcileMemberships` makes.
use pgop.Prelude.{true, List, [], ◌∷◌, ◌≡◌, refl, Option, none, some, Option-cases, inl, inr, All}
use pgop.Text.{Text, text_eq}
use pgop.Grants.Engine.{CallError}
use pgop.Settings.{forget}
use pgop.Memberships.{
  MembershipState, MembershipPlan, Statement, grant_role, revoke_admin_option, revoke_role, failed,
  Log, Client,
}
use pgop.Memberships.Reconcile.{
  Run, run_grants, run_admin_revokes, run_revokes, after_admin_revokes, after_grants, run_plan,
}

-- A list of statements that all have a property, `P` for the grants, `A` for the revokes of the
-- admin option and `R` for the revokes.
module _ (P A R : Text → Type 0) where
  abbrev pub IsOk : Statement → Type 0
  IsOk (grant_role r o) = P r
  IsOk (revoke_admin_option r) = A r
  IsOk (revoke_role r) = R r
  IsOk failed = true ≡ true

  abbrev pub AllGrants : List (Text × MembershipState) → Type 0
  AllGrants [] = true ≡ true
  AllGrants ((r, o) ∷ gs) = P r × AllGrants gs

  module _ (client : Client) where
    run_grants-IsOk :
        (gs : List (Text × MembershipState)) (tracked : List Text) (log : Log)
        → AllGrants gs
        → All IsOk log
        → All IsOk (run_grants client gs tracked log).log
    unfolding run_grants
    run_grants-IsOk [] tracked log a h = h
    run_grants-IsOk ((r, o) ∷ gs) tracked log (p, a) h =
        elim (Option-cases (client.grant log r o)) [
          | inr (e, f) ↦ rw (f, run_grants) (refl, h)
          | inl f ↦
              rw (f, run_grants) (run_grants-IsOk gs (r ∷ tracked) (grant_role r o ∷ log) a (p, h))
        ]

    run_admin_revokes-IsOk :
        (rs tracked : List Text) (log : Log)
        → All A rs
        → All IsOk log
        → All IsOk (run_admin_revokes client rs tracked log).log
    unfolding run_admin_revokes
    run_admin_revokes-IsOk [] tracked log a h = h
    run_admin_revokes-IsOk (r ∷ rs) tracked log (p, a) h =
        elim (Option-cases (client.revoke_admin log r)) [
          | inr (e, f) ↦ rw (f, run_admin_revokes) (refl, h)
          | inl f ↦
              rw (f, run_admin_revokes)
                (run_admin_revokes-IsOk rs tracked (revoke_admin_option r ∷ log) a (p, h))
        ]

    run_revokes-IsOk :
        (rs tracked : List Text) (log : Log)
        → All R rs
        → All IsOk log
        → All IsOk (run_revokes client rs tracked log).log
    unfolding run_revokes
    run_revokes-IsOk [] tracked log a h = h
    run_revokes-IsOk (r ∷ rs) tracked log (p, a) h = elim (Option-cases (client.revoke log r)) [
      | inr (e, f) ↦ rw (f, run_revokes) (refl, h)
      | inl f ↦
          rw (f, run_revokes)
            (run_revokes-IsOk rs (forget tracked r) (revoke_role r ∷ log) a (p, h))
    ]

    pub run_plan-IsOk :
        (plan : MembershipPlan) (tracked : List Text) (log : Log)
        → AllGrants plan.grant
        → All A plan.revoke_admin
        → All R plan.revoke
        → All IsOk log
        → All IsOk (run_plan client plan tracked log).log
    unfolding run_plan
    run_plan-IsOk plan tracked log g a r h =
        let grants = run_grants client plan.grant tracked log in
        first grants grants.error (run_grants-IsOk plan.grant tracked log g h)
      where
        second :
            (run : Run) (o : Option CallError)
            → All IsOk run.log
            → All IsOk (after_admin_revokes client plan run o).log
        second run (some e) k = k
        second run none k = run_revokes-IsOk plan.revoke run.tracked run.log r k

        first :
            (run : Run) (o : Option CallError)
            → All IsOk run.log
            → All IsOk (after_grants client plan run o).log
        first run (some e) k = k
        first run none k =
            let admins = run_admin_revokes client plan.revoke_admin run.tracked run.log in
            second admins admins.error
              (run_admin_revokes-IsOk plan.revoke_admin run.tracked run.log a k)
