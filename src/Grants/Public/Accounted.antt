-- ===== src/Grants/Public/Accounted.antt =====
-- `reconcilePublicPrivileges` as a whole: what runs is lawful, and nothing revoked is forgotten.
use pgop.Prelude.{
  Bool, true, false, not, ◌&&◌, List, [], ◌∷◌, ◌≡◌, refl, sym, ap, ◌∙◌, arith, ◌==◌, contains,
  Option, none, some, Result, ok, err, Bool-cases, inl, inr, ==-refl, eq_of_==,
}
use pgop.Text.{Text, text_eq}
use pgop.Grants.Engine.{CallError}
use pgop.Settings.{forget}
use pgop.Settings.Ledger.{contains-forget}
use pgop.Grants.Public.{
  Item, items, field, privilege, revoke_requested, PublicSpec, public_grant_conflict, saved,
  save_failed, revoked, revoke_failed, granted, grant_failed, Events, PublicServer, PublicState,
  record_of, Step, still, check_still, after_revoke, run_revoke, after_save, save_then,
  record_and_revoke, after_grant, grant_back, act, on_held, first_read, with_held, item_step,
  is_of_kind, unless_stopped, run_items, first_state, run_of, reconcile_public_privileges,
}
use pgop.Grants.Public.Safety.{
  WasRecorded, IsKept, IsLawful, IsSound, forget-IsKept, more-IsKept, later, listed-forget,
  contains-record_of,
}

module _ (server : PublicServer) (spec : PublicSpec) (initial : List Text) where
  -- What holds after a step that cannot be taken back.
  abbrev IsFine : PublicState → Type 0
  IsFine st = IsSound spec initial st

  check_still-IsFine :
      (it : Item) (st : PublicState) → IsFine st → IsFine (check_still server spec it st)
  unfolding check_still
  check_still-IsFine it st h = on (server.held_from_any_grantor st.log it)
    where
      on : (r : Result CallError Bool) → IsFine (still server spec it st r)
      on (err e) = record { lawful = h.lawful; listed = h.listed; keeps = h.keeps }
      on (ok true) = record { lawful = h.lawful; listed = h.listed; keeps = h.keeps }
      on (ok false) = h

  run_revoke-IsFine :
      (it : Item) (st : PublicState)
      → revoke_requested spec.public_privileges it ≡ true
      → public_grant_conflict spec it ≡ false
      → contains st.recorded (field it) ≡ true
      → IsFine st
      → IsFine (run_revoke server spec it st)
  unfolding run_revoke
  run_revoke-IsFine it st w c m h = on (server.revoke st.log it)
    where
      on : (o : Option CallError) → IsFine (after_revoke server spec it st o)
      on (some e) = record {
        lawful = ((w, c, h.listed (field it) m), h.lawful);
        listed = λ f k. later spec initial (revoke_failed it) f st.log (h.listed f k);
        keeps = (tt, h.keeps);
      }
      on none =
          check_still-IsFine it (record st { log = revoked it ∷ st.log })
            (record {
              lawful = ((w, c, h.listed (field it) m), h.lawful);
              listed = λ f k. later spec initial (revoked it) f st.log (h.listed f k);
              keeps = (m, h.keeps);
            })

  -- The record that the status gets before a revocation.
  save_then-IsFine :
      (it : Item) (st : PublicState)
      → revoke_requested spec.public_privileges it ≡ true
      → public_grant_conflict spec it ≡ false
      → contains st.recorded (field it) ≡ false
      → IsFine st
      → IsFine (save_then server spec it (record st { recorded = field it ∷ st.recorded }))
  unfolding contains
  save_then-IsFine it st w c new h = on (server.save st.log (record_of (field it ∷ st.recorded)))
    where
      more : List Text
      more = field it ∷ st.recorded

      at_head : contains more (field it) ≡ true
      at_head = ground (arith, ==-refl (field it))

      on :
          (o : Option CallError)
          → IsFine (after_save server spec it (record st { recorded = more }) o)
      on (some e) = record {
        lawful = (tt, h.lawful);
        listed = λ f k.
            later spec initial (save_failed (record_of more)) f st.log (h.listed f (dropped f k));
        keeps = (
          tt,
          more-IsKept spec initial st.log st.recorded (forget more (field it)) restored h.keeps,
        );
      }
        where
          dropped :
              (f : Text)
              → contains (forget more (field it)) f ≡ true
              → contains st.recorded f ≡ true
          dropped f k = ground (arith, k, contains-forget more (field it) f)

          restored :
              (f : Text)
              → contains st.recorded f ≡ true
              → contains (forget more (field it)) f ≡ true
          restored f k =
              ground
                (arith, k, new, contains-forget more (field it) f, text_eq.beq_iff (field it) f)
      on none =
          run_revoke-IsFine it
            (record st { recorded = more; log = saved (record_of more) ∷ st.log }) w c at_head
            (record {
              lawful = (tt, h.lawful);
              listed = λ f k. recorded_now f k;
              keeps = (
                tt,
                more-IsKept spec initial st.log st.recorded more (λ f k. ground (arith, k)) h.keeps,
              );
            })
        where
          recorded_now :
              (f : Text)
              → contains more f ≡ true
              → WasRecorded spec initial f (saved (record_of more) ∷ st.log)
          recorded_now f k = elim (Bool-cases (field it == f)) [
            | inl e ↦ inr (
                inl (
                  ap (contains (record_of more)) (sym (eq_of_== (field it) f e))
                  ∙ contains-record_of more it at_head))
            | inr e ↦
                later spec initial (saved (record_of more)) f st.log
                  (h.listed f (ground (arith, k, e)))
          ]

  grant_back-IsFine :
      (it : Item) (holds : Bool) (st : PublicState)
      → revoke_requested spec.public_privileges it ≡ false
      → contains st.recorded (field it) ≡ true
      → IsFine st
      → IsFine (grant_back server spec it holds st)
  unfolding grant_back
  grant_back-IsFine it true st w m h = record {
    lawful = h.lawful;
    listed = λ f k. h.listed f (listed-forget spec initial st.recorded (field it) f k);
    keeps = forget-IsKept spec initial it st.log st.recorded w h.lawful h.keeps;
  }
  grant_back-IsFine it false st w m h = on (server.grant st.log it)
    where
      on : (o : Option CallError) → IsFine (after_grant server spec it st o)
      on (some e) = record {
        lawful = ((w, h.listed (field it) m), h.lawful);
        listed = λ f k. later spec initial (grant_failed it) f st.log (h.listed f k);
        keeps = (tt, h.keeps);
      }
      on none = record {
        lawful = ((w, h.listed (field it) m), h.lawful);
        listed = λ f k.
            later spec initial (granted it) f st.log
              (h.listed f (listed-forget spec initial st.recorded (field it) f k));
        keeps = (tt, forget-IsKept spec initial it st.log st.recorded w h.lawful h.keeps);
      }

  act-IsFine :
      (it : Item) (want holds : Bool) (st : PublicState)
      → revoke_requested spec.public_privileges it ≡ want
      → (want ≡ true → public_grant_conflict spec it ≡ false)
      → (want ≡ false → contains st.recorded (field it) ≡ true)
      → IsFine st
      → IsFine (act server spec it want holds st)
  unfolding act record_and_revoke
  act-IsFine it true true st w c m h = elim (Bool-cases (contains st.recorded (field it))) [
    | inl e ↦ rw e (run_revoke-IsFine it st w (c refl) e h)
    | inr e ↦ rw e (save_then-IsFine it st w (c refl) e h)
  ]
  act-IsFine it true false st w c m h = check_still-IsFine it st h
  act-IsFine it false holds st w c m h = grant_back-IsFine it holds st w (m refl) h

  on_held-IsFine :
      (it : Item) (want : Bool) (st : PublicState) (o : Option (List Text))
      → revoke_requested spec.public_privileges it ≡ want
      → (want ≡ true → public_grant_conflict spec it ≡ false)
      → (want ≡ false → contains st.recorded (field it) ≡ true)
      → IsFine st
      → IsFine (on_held server spec it want st o)
  unfolding on_held
  on_held-IsFine it true st none w c m h = h
  on_held-IsFine it false st none w c m h = record {
    lawful = h.lawful;
    listed = λ f k. h.listed f (listed-forget spec initial st.recorded (field it) f k);
    keeps = forget-IsKept spec initial it st.log st.recorded w h.lawful h.keeps;
  }
  on_held-IsFine it want st (some privs) w c m h =
      act-IsFine it want (contains privs (privilege it)) st w c m h

  with_held-IsFine :
      (it : Item) (want : Bool) (st : PublicState) (cache : Option (Option (List Text)))
      → revoke_requested spec.public_privileges it ≡ want
      → (want ≡ true → public_grant_conflict spec it ≡ false)
      → (want ≡ false → contains st.recorded (field it) ≡ true)
      → IsFine st
      → IsFine (with_held server spec it want st cache).0
  unfolding with_held
  with_held-IsFine it want st (some o) w c m h = on_held-IsFine it want st o w c m h
  with_held-IsFine it want st none w c m h = on (server.held st.log)
    where
      on :
          (r : Result CallError (Option (List Text)))
          → IsFine (first_read server spec it want st r).0
      on (err e) = h
      on (ok o) =
          on_held-IsFine it want (record st { cache = some o }) o w c m
            (record { lawful = h.lawful; listed = h.listed; keeps = h.keeps })

  item_step-IsFine :
      (it : Item) (st : PublicState) → IsFine st → IsFine (item_step server spec it st).0
  unfolding item_step
  item_step-IsFine it st h =
      let want = revoke_requested spec.public_privileges it in
      elim (Bool-cases (want && public_grant_conflict spec it)) [
        | inl e ↦ rw e (record { lawful = h.lawful; listed = h.listed; keeps = h.keeps })
        | inr e ↦ elim (Bool-cases (not want && not (contains st.recorded (field it)))) [
          | inl f ↦ rw (e, f) h
          | inr f ↦
              rw (e, f)
                (with_held-IsFine it want st st.cache refl (λ w. ground (arith, w, e))
                  (λ w. ground (arith, w, f)) h)
        ]
      ]

  run_items-IsFine :
      (schema : Bool) (its : List Item) (st : PublicState)
      → IsFine st
      → IsFine (run_items server spec schema its st).0
  unfolding run_items
  run_items-IsFine schema [] st h = h
  run_items-IsFine schema (it ∷ its) st h = elim (Bool-cases (is_of_kind server spec schema it)) [
    | inr e ↦ rw e (run_items-IsFine schema its st h)
    | inl e ↦ rw e (
        on (λ s k. run_items-IsFine schema its s k) (item_step server spec it st)
          (item_step-IsFine it st h))
  ]
    where
      on :
          ((s : PublicState) → IsFine s → IsFine (run_items server spec schema its s).0)
          → (x : Step) → IsFine x.0
          → IsFine (unless_stopped server spec (run_items server spec schema its) x).0
      on next (s, some e) k = k
      on next (s, none) k = next s k

  -- What ran is lawful, and the status lists what was revoked.
  abbrev pub IsAccounted : Events → List Text → Type 0
  IsAccounted log status = IsLawful spec initial log × IsKept log status

  -- In every branch, errors included: a privilege is revoked from PUBLIC only where the spec asks for
  -- it and does not also grant it to PUBLIC, and after the status that is written has it; it is
  -- granted back only where the status recorded it and the spec no longer asks to revoke it; and
  -- the status that is left has every privilege that was revoked.
  pub reconcile_public_privileges-IsAccounted :
      (schema : Bool)
      → IsAccounted
          (reconcile_public_privileges server spec schema initial).log
          (reconcile_public_privileges server spec schema initial).status
  unfolding reconcile_public_privileges
  reconcile_public_privileges-IsAccounted schema =
      on (run_items server spec schema items (first_state initial)) (
        run_items-IsFine schema items (first_state initial)
          (record { lawful = tt; listed = λ f k. inl k; keeps = tt }))
    where
      in_status :
          (log : Events) (recorded : List Text)
          → IsKept log recorded
          → IsKept log (record_of recorded)
      in_status [] recorded k = tt
      in_status (revoked it ∷ log) recorded (here, k) =
          (contains-record_of recorded it here, in_status log recorded k)
      in_status (revoke_failed it ∷ log) recorded (_, k) = (tt, in_status log recorded k)
      in_status (saved fields ∷ log) recorded (_, k) = (tt, in_status log recorded k)
      in_status (save_failed fields ∷ log) recorded (_, k) = (tt, in_status log recorded k)
      in_status (granted it ∷ log) recorded (_, k) = (tt, in_status log recorded k)
      in_status (grant_failed it ∷ log) recorded (_, k) = (tt, in_status log recorded k)

      on : (x : Step) → IsFine x.0 → IsAccounted (run_of x).log (run_of x).status
      on (st, some e) h = (h.lawful, in_status st.log st.recorded h.keeps)
      on (st, none) h = (h.lawful, in_status st.log st.recorded h.keeps)
