-- ===== src/Roles/Drop/Safety.antt =====
-- When the role of a deleted Role is touched at all, and what precedes each act.
use pgop.Prelude.{
  true, false, ◌⊎◌, List, [], ◌∷◌, ◌++◌, ◌≡◌, refl, arith, ◌==◌, Option, none, some, Result, ok,
  err, Bool-cases, inl, inr,
}
use pgop.Text.{Text, text_eq}
use pgop.Grants.Engine.{CallError}
use pgop.Roles.{RoleError, reserved_role_name}
use pgop.Roles.Reassign.{
  Act, revoke_parameters, revoke_database_privileges, connect_to, revoke_schema_privileges,
  revoke_extension_privileges, revoke_recorded_objects, reassign_owned, drop_role, Entry, done,
  tried, Acts, ReassignTargetInfo, DatabaseConns, DropServer, ReassignProblem, reassign_problem,
  check_reassign_target, Reassigned, swept, failed, logged, after, reassign_owned_in, unless_failed,
  act_then, last_act, or_skipped, sweep, reassign_everywhere, unless_owner, unless_refused,
  reassign_owned_objects,
}
use pgop.Roles.Drop.{revoke_schema_privileges_in}

abbrev pub Has : Entry → Acts → Type 0
Has e [] = ⊥
Has e (x ∷ log) = (x ≡ e) ⊎ Has e log

-- Each of the acts was done.
abbrev pub AllDone : List Act → Acts → Type 0
AllDone [] log = Unit
AllDone (act ∷ acts) log = Has (done act) log × AllDone acts log

pub AllDone-more :
    (acts : List Act) (e : Entry) (log : Acts) → AllDone acts log → AllDone acts (e ∷ log)
AllDone-more [] e log h = tt
AllDone-more (act ∷ acts) e log (p, h) = (inr p, AllDone-more acts e log h)

abbrev pub revocations : List Act
revocations = revoke_recorded_objects ∷ revoke_database_privileges ∷ revoke_parameters ∷ []

module _ (server : DropServer) (name : Text) (target : Option Text) where
  -- The target may be handed what the role owns: it is another role, not reserved, that exists, is no
  -- superuser and that the role is a member of; and the role owns no database.
  abbrev pub MayReceive : Text → Type 0
  MayReceive t =
      (reserved_role_name t ≡ none)
      × ((t == name) ≡ false)
      × (log : Acts) × (info : ReassignTargetInfo) × (server.reassign_target log ≡ ok info)
      × (info.exists ≡ true)
      × (info.super ≡ false)
      × (info.old_has_usage ≡ true)
      × (server.databases_owned log ≡ ok [])

  -- The spec asks for no reassignment, or its target may receive it.
  abbrev pub IsCleared : Option Text → Type 0
  IsCleared none = Unit
  IsCleared (some t) = (t ≡ []) ⊎ MayReceive t

  -- What has to hold for an act, after those of `log`.
  abbrev pub MayRun : Act → Acts → Type 0
  MayRun (reassign_owned db old t) log = (old ≡ name) × (some t ≡ target) × MayReceive t
  MayRun (drop_role n) log = (n ≡ name) × AllDone revocations log × IsCleared target
  MayRun _ log = Unit

  abbrev pub act_of : Entry → Act
  act_of (done act) = act
  act_of (tried act) = act

  abbrev pub IsLawful : Acts → Type 0
  IsLawful [] = Unit
  IsLawful (e ∷ log) = MayRun (act_of e) log × IsLawful log

  -- The log is lawful, and the acts were done.
  abbrev pub IsAt : List Act → Acts → Type 0
  IsAt acts log = IsLawful log × AllDone acts log

  pub logged-IsAt :
      (acts : List Act) (act : Act) (o : Option CallError) (log : Acts)
      → MayRun act log
      → IsAt acts log
      → IsAt acts (logged act o log)
  logged-IsAt acts act none log m (l, d) = ((m, l), AllDone-more acts (done act) log d)
  logged-IsAt acts act (some e) log m (l, d) = ((m, l), AllDone-more acts (tried act) log d)

  -- A loop over databases keeps what its body keeps.
  pub sweep-keeps :
      (P : Acts → Type 0) (work : Text → Acts → Acts × Option CallError)
      → ((db : Text) (log : Acts) → P log → P (work db log).0)
      → (dbs : List DatabaseConns) (skipped : List Text) (log : Acts) → P log
      → P (sweep server work dbs skipped log).log
  unfolding sweep
  sweep-keeps P work keep [] skipped log h = h
  sweep-keeps P work keep (db ∷ dbs) skipped log h = elim (Bool-cases db.allow_conns) [
    | inr e ↦ rw e (sweep-keeps P work keep dbs (skipped ++ db.name ∷ []) log h)
    | inl e ↦
        let out = work db.name log in
        rw e (
          sweep-keeps P work keep dbs (or_skipped server db.name out.1 skipped) out.0
            (keep db.name log h))
  ]

  act_then-IsAt :
      (acts : List Act) (act : Act) (log : Acts) (next : Acts → Acts × Option CallError)
      → MayRun act log
      → ((l : Acts) → IsAt acts l → IsAt acts (next l).0)
      → IsAt acts log
      → IsAt acts (act_then server act log next).0
  act_then-IsAt acts act log next m keep h =
      continue (server.answer log act) (logged-IsAt acts act (server.answer log act) log m h)
    where
      continue :
          (o : Option CallError)
          → IsAt acts (after server log act)
          → IsAt acts (unless_failed server (after server log act) next o).0
      continue (some e) k = k
      continue none k = keep (after server log act) k

  pub revoke_schema_privileges_in-IsAt :
      (acts : List Act) (db : Text) (log : Acts)
      → IsAt acts log
      → IsAt acts (revoke_schema_privileges_in server db log).0
  unfolding revoke_schema_privileges_in
  revoke_schema_privileges_in-IsAt acts db log h =
      let last = last_act server (revoke_extension_privileges db) in
      let middle = λ (l : Acts). act_then server (revoke_schema_privileges db) l last in
      act_then-IsAt acts (connect_to db) log middle tt
        (λ l k.
          act_then-IsAt acts (revoke_schema_privileges db) l last tt
            (λ m n.
              logged-IsAt acts (revoke_extension_privileges db)
                (server.answer m (revoke_extension_privileges db)) m tt n)
            k)
        h

  reassign_owned_in-IsAt :
      (acts : List Act) (t db : Text) (log : Acts)
      → (some t ≡ target) × MayReceive t
      → IsAt acts log
      → IsAt acts (reassign_owned_in server name t db log).0
  unfolding reassign_owned_in
  reassign_owned_in-IsAt acts t db log (e, m) h =
      let act = reassign_owned db name t in
      act_then-IsAt acts (connect_to db) log (last_act server act) tt
        (λ l k. logged-IsAt acts act (server.answer l act) l (refl, e, m) k) h

  reassign_problem-none :
      (t : Text) (info : ReassignTargetInfo) (o : Option RoleError)
      → reserved_role_name t ≡ o
      → reassign_problem name t info o ≡ none
      → (reserved_role_name t ≡ none)
        × ((t == name) ≡ false)
        × (info.exists ≡ true)
        × (info.super ≡ false)
        × (info.old_has_usage ≡ true)
  reassign_problem-none t info (some e) r h = cc
  reassign_problem-none t info none r h =
      (r, ground (arith, h), ground (arith, h), ground (arith, h), ground (arith, h))

  -- What may follow a reassignment: the target may receive, and the log is lawful.
  abbrev pub SweptAt : Text → Reassigned → Type 0
  SweptAt t (swept s) = MayReceive t × IsAt revocations s.log
  SweptAt t _ = Unit

  pub reassign_owned_objects-SweptAt :
      (t : Text) (log : Acts)
      → some t ≡ target
      → IsAt revocations log
      → SweptAt t (reassign_owned_objects server name t log)
  unfolding reassign_owned_objects check_reassign_target
  reassign_owned_objects-SweptAt t log e h = of_info (server.reassign_target log) refl
    where
      of_dbs :
          (r : Result CallError (List DatabaseConns))
          → MayReceive t
          → SweptAt t (reassign_everywhere server name t log r)
      of_dbs (err x) m = tt
      of_dbs (ok dbs) m = (
        m,
        sweep-keeps (IsAt revocations) (reassign_owned_in server name t)
            (λ db l k. reassign_owned_in-IsAt revocations t db l (e, m) k) dbs [] log h,
      )

      of_owned :
          (info : ReassignTargetInfo) (r : Result CallError (List Text))
          → server.reassign_target log ≡ ok info
          → server.databases_owned log ≡ r
          → (reserved_role_name t ≡ none)
            × ((t == name) ≡ false)
            × (info.exists ≡ true)
            × (info.super ≡ false)
            × (info.old_has_usage ≡ true)
          → SweptAt t (unless_owner server name t log r)
      of_owned info (err x) p q c = tt
      of_owned info (ok (db ∷ dbs)) p q c = tt
      of_owned info (ok []) p q (a, b, x, y, z) =
          of_dbs (server.databases_with_owned_objects log) (a, b, log, info, p, x, y, z, q)

      of_check :
          (info : ReassignTargetInfo) (o : Option ReassignProblem)
          → server.reassign_target log ≡ ok info
          → reassign_problem name t info (reserved_role_name t) ≡ o
          → SweptAt t (unless_refused server name t log o)
      of_check info (some x) p c = tt
      of_check info none p c =
          of_owned info (server.databases_owned log) p refl
            (reassign_problem-none t info (reserved_role_name t) refl c)

      of_info :
          (r : Result CallError ReassignTargetInfo)
          → server.reassign_target log ≡ r
          → SweptAt t (elim r [
            | err x ↦ failed x
            | ok info ↦ unless_refused server name t log (check_reassign_target name t info)
          ])
      of_info (err x) p = tt
      of_info (ok info) p =
          of_check info (reassign_problem name t info (reserved_role_name t)) p refl
