-- ===== src/Grants/Engine/Apply/Limit.antt =====
-- A run of `apply_privilege_grants` over the limit.
use pgop.Prelude.{ℕ, true, false, List, [], ◌∷◌, ◌≡◌, refl, All}
use pgop.Text.{Text}
use pgop.Text.Sort.{sort}
use pgop.Grants.Target.{PrivilegeGrant}
use pgop.Grants.Ledger.{Ledger, get, tracked, want, keys}
use pgop.Grants.Engine.{Call, Log, Ops, ◌>>=◌, pure}
use pgop.Grants.Engine.Triple.{Triple, Triple-bind, Triple-pure, Triple-given}
use pgop.Grants.Engine.Revoke.Safety.{KeepsRevokes, revoke_removed-keeps}
use pgop.Grants.Engine.Apply.{
  GrantError, too_many_grants, total_entries, keep, plan_grants, revoke_all, finish, over_limit,
  record_and_grant, apply_privilege_grants,
}

-- A REVOKE, or the check before it.
abbrev pub IsRevocation : Call → Type 0
IsRevocation (Call.revoke t ps mode) = true ≡ true
IsRevocation (Call.gone t) = true ≡ true
IsRevocation (Call.held t) = true ≡ false
IsRevocation (Call.grant t ps with_option) = true ≡ false
IsRevocation (Call.persist ledger) = true ≡ false

module _ (ops : Ops) (managed desired : List PrivilegeGrant) where
  abbrev N : Log → Type 0
  N log = All IsRevocation log

  revocations : (m d : PrivilegeGrant) → KeepsRevokes N m d
  revocations m d = record { asked = λ log h. (refl, h); revoked = λ log ps mode j h. (refl, h) }

  revoke_all-revokes :
      (ks : List Text) (m : Ledger) → Triple N (revoke_all ops (want desired) ks m) (λ a log. N log)
  unfolding revoke_all
  revoke_all-revokes [] m = Triple-pure _ (λ log i. i)
  revoke_all-revokes (k ∷ ks) m =
      Triple-bind _ _
        (revoke_removed-keeps ops N (get m k) (get (want desired) k)
          (revocations (get m k) (get (want desired) k)))
        (λ r. Triple-given (λ o.
          Triple-bind _ _ (revoke_all-revokes ks (keep m k r.left))
            (λ a. Triple-pure _ (λ log i. i))))

  finish-revokes :
      (m : Ledger) (errors : List GrantError)
      → Triple N (finish ops (want desired) m errors) (λ r log. N log)
  unfolding finish
  finish-revokes m errors =
      Triple-bind _ _ (revoke_all-revokes (sort (keys m)) m) (λ a. Triple-pure _ (λ log i. i))

  -- When the declared and the tracked grants are more than the limit, a run of the engine reads,
  -- records and grants nothing: it revokes only.
  pub apply_privilege_grants-over_limit :
      (limit : ℕ)
      → over_limit desired managed limit ≡ true
      → All IsRevocation (apply_privilege_grants ops desired managed limit []).1
  unfolding apply_privilege_grants record_and_grant ◌>>=◌ pure plan_grants
  apply_privilege_grants-over_limit limit h =
      rw (h, apply_privilege_grants)
        ((finish-revokes (tracked managed)
            (too_many_grants (total_entries desired managed) limit ∷ [])).at
          [] tt)
