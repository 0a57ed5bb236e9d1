-- ===== src/Roles/Drop/Order.antt =====
-- The drop of a role as a whole: when it is touched at all, in what order, and what a finished run means.
use pgop.Prelude.{
  Bool, true, false, ◌⊎◌, List, [], ◌∷◌, ◌++◌, ◌≡◌, refl, arith, is_empty, Option, none, some,
  Result, ok, err, Bool-cases, inl, inr, if_both,
}
use mathlib.Core.Path.{subst}
use pgop.Text.{Text, text_eq}
use pgop.Grants.Engine.{CallError}
use pgop.Roles.{RoleError, reserved_role_name}
use pgop.Roles.Reassign.{
  revoke_parameters, revoke_database_privileges, revoke_recorded_objects, drop_role, save_status,
  done, tried, Acts, DatabaseConns, DropServer, Swept, Reassigned, swept, blocked, failed, logged,
  after, sweep, reassign_owned_objects,
}
use pgop.Policy.Ownership.{decide_ownership}
use pgop.Roles.{Role, check_role_name}
use pgop.Roles.Takeover.{Cluster, OwnershipReads, role_recorded, load_marker_signer}
use pgop.Roles.Takeover.Safety.{IsRecorded, role_recorded-IsRecorded, IsMarked}
use pgop.Roles.Drop.{
  signer_or_empty, is_mine, after_comment, after_role_name, after_reserved, after_recorded,
  drop_postgres_role, Blocking, Dropped, DropResult, finished, saved, revoke_schema_privileges_in,
  after_drop, run_drop, after_reassign, reassign_and_drop, after_objects, after_databases,
  after_database_privileges, after_parameters, revoke_and_drop, dependents_left, reassign_refused,
  block,
}
use pgop.Roles.Drop.Safety.{
  revocations, IsCleared, IsLawful, IsAt, logged-IsAt, sweep-keeps,
  revoke_schema_privileges_in-IsAt, SweptAt, reassign_owned_objects-SweptAt,
}

module _ (server : DropServer) (name : Text) (target : Option Text) where
  -- A finished run ends with a DROP ROLE that PostgreSQL made.
  abbrev pub Ends : DropResult → Acts → Type 0
  Ends finished log = (before : Acts) × (log ≡ done (drop_role name) ∷ before)
  Ends _ log = Unit

  -- What ran is lawful, and a finished run dropped the role.
  abbrev pub IsGood : Dropped → Type 0
  IsGood d = IsLawful server name target d.log × Ends d.result d.log

  block-IsGood :
      (b : Blocking) (log : Acts) → IsLawful server name target log → IsGood (block server b log)
  block-IsGood b log h =
      let o = server.answer log save_status in
      on o (logged-IsAt server name target [] save_status o log tt (h, tt)).0
    where
      on :
          (o : Option CallError)
          → IsLawful server name target (after server log save_status)
          → IsGood (saved server b (after server log save_status) o)
      on none k = (k, tt)
      on (some e) k = (k, tt)

  run_drop-IsGood :
      (skipped : List Text) (log : Acts)
      → IsCleared server name target target
      → IsAt server name target revocations log
      → IsGood (run_drop server name skipped log)
  unfolding run_drop
  run_drop-IsGood skipped log c (l, d) = on (server.answer log (drop_role name))
    where
      on :
          (o : Option CallError)
          → IsGood (after_drop server skipped (logged (drop_role name) o log) o)
      on none = (((refl, d, c), l), (log, refl))
      on (some e) =
          let k : IsLawful server name target (tried (drop_role name) ∷ log) = ((refl, d, c), l) in
          if_both (λ (d : Dropped). IsGood d) (server.is_dependents e)
            (block-IsGood (dependents_left e skipped) (tried (drop_role name) ∷ log) k) (k, tt)

  reassign_and_drop-IsGood :
      (t : Option Text) (skipped : List Text) (log : Acts)
      → t ≡ target
      → IsAt server name target revocations log
      → IsGood (reassign_and_drop server name t skipped log)
  unfolding reassign_and_drop
  reassign_and_drop-IsGood none skipped log e h =
      run_drop-IsGood skipped log (subst (IsCleared server name target) e tt) h
  reassign_and_drop-IsGood (some t) skipped log e h = elim (Bool-cases (is_empty t)) [
    | inl f ↦ rw f (
        run_drop-IsGood skipped log
          (subst (IsCleared server name target) e (inl (is_empty-nil t f))) h)
    | inr f ↦ rw f (
        on (reassign_owned_objects server name t log)
          (reassign_owned_objects-SweptAt server name target t log e h))
  ]
    where
      is_empty-nil : (u : Text) → is_empty u ≡ true → u ≡ []
      is_empty-nil [] k = refl
      is_empty-nil (c ∷ cs) k = cc

      on :
          (r : Reassigned)
          → SweptAt server name target t r
          → IsGood (after_reassign server name skipped log r)
      on (failed x) k = (h.0, tt)
      on (blocked p) k = block-IsGood (reassign_refused p) log h.0
      on (swept s) (m, k) =
          run_drop-IsGood (skipped ++ s.skipped) s.log
            (subst (IsCleared server name target) e (inr m)) k

  -- From the first revocation on, everything that runs is lawful.
  pub revoke_and_drop-IsGood : IsGood (revoke_and_drop server name target)
  unfolding revoke_and_drop
  revoke_and_drop-IsGood = of_parameters (server.answer [] revoke_parameters)
    where
      of_objects :
          (s : Swept) (r : Result CallError (List Text))
          → IsAt server name target (revoke_database_privileges ∷ revoke_parameters ∷ []) s.log
          → IsGood (after_objects server name target s r)
      of_objects s (err e) (l, d) = ((tt, l), tt)
      of_objects s (ok skipped) (l, (a, (b, _))) =
          reassign_and_drop-IsGood target (s.skipped ++ skipped)
            (done revoke_recorded_objects ∷ s.log) refl ((tt, l), (inl refl, (inr a, (inr b, tt))))

      of_databases :
          (log : Acts) (r : Result CallError (List DatabaseConns))
          → IsAt server name target (revoke_database_privileges ∷ revoke_parameters ∷ []) log
          → IsGood (after_databases server name target log r)
      of_databases log (err e) (l, d) = (l, tt)
      of_databases log (ok dbs) h =
          let acts = revoke_database_privileges ∷ revoke_parameters ∷ [] in
          let s = sweep server (revoke_schema_privileges_in server) dbs [] log in
          of_objects s (server.objects_skipped s.log) (
            sweep-keeps server name target (IsAt server name target acts)
              (revoke_schema_privileges_in server)
              (λ db l k. revoke_schema_privileges_in-IsAt server name target acts db l k) dbs [] log
              h)

      of_database_privileges :
          (log : Acts) (o : Option CallError)
          → IsAt server name target (revoke_parameters ∷ []) log
          → IsGood (
              after_database_privileges server name target
                (logged revoke_database_privileges o log)
                o)
      of_database_privileges log (some e) (l, d) = ((tt, l), tt)
      of_database_privileges log none (l, (d, _)) =
          of_databases (done revoke_database_privileges ∷ log)
            (server.databases_with_privileges (done revoke_database_privileges ∷ log))
            ((tt, l), (inl refl, (inr d, tt)))

      of_parameters :
          (o : Option CallError)
          → IsGood (after_parameters server name target (logged revoke_parameters o []) o)
      of_parameters (some e) = ((tt, tt), tt)
      of_parameters none =
          of_database_privileges (done revoke_parameters ∷ [])
            (server.answer (done revoke_parameters ∷ []) revoke_database_privileges)
            ((tt, tt), (inl refl, tt))

module _ (key_id : Text → Text) (mac : Text → Text → Text) (reads : OwnershipReads)
    (server : DropServer) (role : Role) (cluster : Cluster) (target : Option Text) where
  -- The PostgreSQL role of the status is the Role's: recorded on this Cluster, not reserved, no older
  -- Role has its name, it exists, and its comment is the Role's marker or one that it may replace.
  abbrev pub IsOwnRole : Type 0
  IsOwnRole =
      IsRecorded reads role cluster role.status_role_name
      × (reserved_role_name role.status_role_name ≡ none)
      × (check_role_name reads.roles role role.status_role_name ≡ none)
      × (comment : Text) × (reads.role_comment role.status_role_name ≡ ok (true, comment))
      × IsMarked key_id mac reads role (signer_or_empty (load_marker_signer reads cluster)) comment

  -- Nothing runs, or the role is the Role's own and what runs is lawful.
  abbrev pub IsSafeDrop : Dropped → Type 0
  IsSafeDrop d = (d.log ≡ []) ⊎ (IsOwnRole × IsGood server role.status_role_name target d)

  is_mine-IsMarked :
      (comment : Text)
      → is_mine server key_id mac reads role cluster target comment ≡ true
      → IsMarked key_id mac reads role (signer_or_empty (load_marker_signer reads cluster)) comment
  unfolding decide_ownership
  is_mine-IsMarked comment h = ground (arith, h)

  -- Either nothing runs, or the role in the status is the Role's own: recorded on this Cluster, not
  -- reserved, of no older Role, and marked or to be marked as the Role's. Then what runs is in order:
  -- DROP ROLE is tried only for this role, after the revocations of the parameter grants, of the
  -- database privileges and of the recorded object access returned without an error (those inside
  -- single databases may fail), and owned objects are handed only to the target of the
  -- spec, once it is checked to be another role that exists, is not reserved and no superuser, that
  -- the role is a member of, while the role owns no database; and the result is `finished`, so that
  -- the finalizer is removed, only if the last act is a DROP ROLE that PostgreSQL made.
  pub drop_postgres_role-IsSafeDrop :
      (connected : Option CallError)
      → IsSafeDrop (drop_postgres_role server key_id mac reads role cluster target connected)
  unfolding drop_postgres_role
  drop_postgres_role-IsSafeDrop (some e) = inl refl
  drop_postgres_role-IsSafeDrop none = of_recorded (role_recorded reads role cluster name) refl
    where
      name : Text
      name = role.status_role_name

      of_comment :
          (r : Result CallError (Bool × Text))
          → reads.role_comment name ≡ r
          → IsRecorded reads role cluster name
          → reserved_role_name name ≡ none
          → check_role_name reads.roles role name ≡ none
          → IsSafeDrop (after_comment server key_id mac reads role cluster target name r)
      of_comment (err e) p a b c = inl refl
      of_comment (ok (false, comment)) p a b c = inl refl
      of_comment (ok (true, comment)) p a b c =
          elim (Bool-cases (is_mine server key_id mac reads role cluster target comment)) [
            | inr f ↦ rw f (inl refl)
            | inl f ↦ rw f (
                inr (
                  (a, b, c, comment, p, is_mine-IsMarked comment f),
                  revoke_and_drop-IsGood server name target,
                ))
          ]

      of_name :
          (o : Option RoleError)
          → check_role_name reads.roles role name ≡ o
          → IsRecorded reads role cluster name
          → reserved_role_name name ≡ none
          → IsSafeDrop (after_role_name server key_id mac reads role cluster target name o)
      of_name (some e) p a b = inl refl
      of_name none p a b = of_comment (reads.role_comment name) refl a b p

      of_reserved :
          (o : Option RoleError)
          → reserved_role_name name ≡ o
          → IsRecorded reads role cluster name
          → IsSafeDrop (after_reserved server key_id mac reads role cluster target name o)
      of_reserved (some e) p a = inl refl
      of_reserved none p a = of_name (check_role_name reads.roles role name) refl a p

      of_recorded :
          (r : Result CallError Bool)
          → role_recorded reads role cluster name ≡ r
          → IsSafeDrop (after_recorded server key_id mac reads role cluster target name r)
      of_recorded (err e) p = inl refl
      of_recorded (ok false) p = elim (Bool-cases (is_empty name)) [
        | inl f ↦ rw f (inl refl)
        | inr f ↦ rw f (inl refl)
      ]
      of_recorded (ok true) p = elim (Bool-cases (is_empty name)) [
        | inl f ↦ rw f (inl refl)
        | inr f ↦ rw f (
            of_reserved (reserved_role_name name) refl
              (role_recorded-IsRecorded reads role cluster name p))
      ]
