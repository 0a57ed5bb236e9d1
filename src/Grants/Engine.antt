-- ===== src/Grants/Engine.antt =====
-- `applyPrivilegeGrants` of internal/controller/privilege_grants.go and the steps it is made of.
-- What the program asks of PostgreSQL and of the status it writes are calls; the answers are an
-- arbitrary function of the calls made before, so nothing is assumed of either. The calls made are
-- the state, the latest first.
pub mod Triple
pub mod Revoke
pub mod Apply
use pgop.Prelude.{ℕ, Bool, true, false, List, [], ◌∷◌, Option, none, some, Result, ok, err}
use pgop.Text.{Text}
use pgop.Grants.Target.{GrantTarget, PrivilegeGrant}

-- An error of PostgreSQL or of the status write. The engine tells one SQLSTATE apart.
pub data CallError : Type 0 where
  dependent_privileges : CallError
  other_error : ℕ → CallError

-- postgres.DependentPrivilegesExist
abbrev pub dependent : CallError → Bool
dependent dependent_privileges = true
dependent (other_error n) = false

-- postgres.RevokeMode
pub record RevokeMode : Type 0 where
  pub grant_option_only : Bool
  pub cascade : Bool

pub data Call : Type 0 where
  held : GrantTarget → Call
  grant : GrantTarget → List Text → Bool → Call
  revoke : GrantTarget → List Text → RevokeMode → Call
  gone : GrantTarget → Call
  persist : List PrivilegeGrant → Call

abbrev pub Log : Type 0
Log = List Call

-- `privilegeOps` and `ledgerPersist`; `gone` and `persist` may be nil.
pub record Ops : Type 0 where
  pub held : Log → GrantTarget → Result CallError (List Text × List Text)
  pub grant : Log → GrantTarget → List Text → Bool → Option CallError
  pub revoke : Log → GrantTarget → List Text → RevokeMode → Option CallError
  pub gone : Option (Log → GrantTarget → Result CallError Bool)
  pub persist : Option (Log → List PrivilegeGrant → Option CallError)

-- Code that makes calls.
abbrev pub M : Type 0 → Type 0
M A = Log → A × Log

infixl 5 ◌>>=◌ ◌>>◌
unfoldable pub ◌>>=◌ : {A B : Type 0} → M A → (A → M B) → M B
◌>>=◌ m f log = let (a, log') = m log in f a log'

abbrev pub ◌>>◌ : {A B : Type 0} → M A → M B → M B
m >> n = m >>= λ _. n

unfoldable pub pure : {A : Type 0} → A → M A
pure a log = (a, log)

module _ (ops : Ops) where
  unfoldable pub call_held : GrantTarget → M (Result CallError (List Text × List Text))
  call_held t log = (ops.held log t, Call.held t ∷ log)

  unfoldable pub call_grant : GrantTarget → List Text → Bool → M (Option CallError)
  call_grant t ps with_option log =
      (ops.grant log t ps with_option, Call.grant t ps with_option ∷ log)

  unfoldable pub call_revoke : GrantTarget → List Text → RevokeMode → M (Option CallError)
  call_revoke t ps mode log = (ops.revoke log t ps mode, Call.revoke t ps mode ∷ log)

  -- Without a check everything exists.
  unfoldable pub call_gone : GrantTarget → M (Result CallError Bool)
  call_gone t log = elim ops.gone [
    | none ↦ (ok false, log)
    | some check ↦ (check log t, Call.gone t ∷ log)
  ]

  -- Without a persist step nothing is recorded.
  unfoldable pub call_persist : List PrivilegeGrant → M (Option CallError)
  call_persist ledger log = elim ops.persist [
    | none ↦ (none, log)
    | some save ↦ (save log ledger, Call.persist ledger ∷ log)
  ]
