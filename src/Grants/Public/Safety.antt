-- ===== src/Grants/Public/Safety.antt =====
-- What is taken from PUBLIC is recorded before, and what is given back was recorded.
use pgop.Prelude.{true, false, ◌⊎◌, List, [], ◌∷◌, ◌≡◌, refl, ◌∙◌, arith, ◌==◌, contains, inl, inr}
use pgop.Text.{Text, text_eq, text_beq}
use pgop.Settings.{forget}
use pgop.Settings.Ledger.{contains-forget}
use pgop.Grants.Public.{
  Item, connect, temporary, schema_usage, schema_create, field, revoke_requested, PublicSpec,
  public_grant_conflict, Event, saved, save_failed, revoked, revoke_failed, granted, grant_failed,
  Events, PublicState, record_among, record_of,
}

abbrev pub SavedBy : Text → Event → Type 0
SavedBy f (saved fields) = contains fields f ≡ true
SavedBy f _ = ⊥

-- The field stands in a status that was written.
abbrev pub WasSaved : Text → Events → Type 0
WasSaved f [] = ⊥
WasSaved f (e ∷ log) = SavedBy f e ⊎ WasSaved f log

abbrev pub KeptBy : Event → List Text → Type 0
KeptBy (revoked it) recorded = contains recorded (field it) ≡ true
KeptBy _ recorded = Unit

-- Every privilege that was revoked is recorded.
abbrev pub IsKept : Events → List Text → Type 0
IsKept [] recorded = Unit
IsKept (e ∷ log) recorded = KeptBy e recorded × IsKept log recorded

module _ (spec : PublicSpec) (initial : List Text) where
  -- The field is recorded in the status at first, or in one that was written since.
  abbrev pub WasRecorded : Text → Events → Type 0
  WasRecorded f log = (contains initial f ≡ true) ⊎ WasSaved f log

  -- Revoked is only what the spec asks for, does not grant to PUBLIC too, and was recorded before;
  -- granted back only what was recorded, and is not to be revoked now.
  abbrev pub MayHappen : Event → Events → Type 0
  MayHappen (saved fields) log = Unit
  MayHappen (save_failed fields) log = Unit
  MayHappen (revoked it) log =
      (revoke_requested spec.public_privileges it ≡ true)
      × (public_grant_conflict spec it ≡ false)
      × WasRecorded (field it) log
  MayHappen (revoke_failed it) log =
      (revoke_requested spec.public_privileges it ≡ true)
      × (public_grant_conflict spec it ≡ false)
      × WasRecorded (field it) log
  MayHappen (granted it) log =
      (revoke_requested spec.public_privileges it ≡ false) × WasRecorded (field it) log
  MayHappen (grant_failed it) log =
      (revoke_requested spec.public_privileges it ≡ false) × WasRecorded (field it) log

  abbrev pub IsLawful : Events → Type 0
  IsLawful [] = Unit
  IsLawful (e ∷ log) = MayHappen e log × IsLawful log

  pub record IsSound (st : PublicState) : Type 0 where
    pub lawful : IsLawful st.log
    pub listed : (f : Text) → contains st.recorded f ≡ true → WasRecorded f st.log
    pub keeps : IsKept st.log st.recorded

  pub field-ne :
      (a b : Item)
      → revoke_requested spec.public_privileges a ≡ true
      → revoke_requested spec.public_privileges b ≡ false
      → (field a == field b) ≡ false
  unfolding text_beq
  field-ne connect connect p q = cc
  field-ne connect temporary p q = refl
  field-ne connect schema_usage p q = refl
  field-ne connect schema_create p q = refl
  field-ne temporary connect p q = refl
  field-ne temporary temporary p q = cc
  field-ne temporary schema_usage p q = refl
  field-ne temporary schema_create p q = refl
  field-ne schema_usage connect p q = refl
  field-ne schema_usage temporary p q = refl
  field-ne schema_usage schema_usage p q = cc
  field-ne schema_usage schema_create p q = refl
  field-ne schema_create connect p q = refl
  field-ne schema_create temporary p q = refl
  field-ne schema_create schema_usage p q = refl
  field-ne schema_create schema_create p q = cc

  -- Forgetting a field that is not to be revoked forgets nothing that was revoked.
  pub forget-IsKept :
      (it : Item) (log : Events) (recorded : List Text)
      → revoke_requested spec.public_privileges it ≡ false
      → IsLawful log
      → IsKept log recorded
      → IsKept log (forget recorded (field it))
  forget-IsKept it [] recorded q l k = tt
  forget-IsKept it (revoked a ∷ log) recorded q ((w, _, _), l) (here, k) = (
    contains-forget recorded (field it) (field a)
        ∙ ground (
          arith,
          here,
          field-ne a it w q,
          text_eq.beq_iff (field a) (field it),
          text_eq.beq_iff (field it) (field a),
        ),
    forget-IsKept it log recorded q l k,
  )
  forget-IsKept it (revoke_failed a ∷ log) recorded q (_, l) (_, k) =
      (tt, forget-IsKept it log recorded q l k)
  forget-IsKept it (saved fields ∷ log) recorded q (_, l) (_, k) =
      (tt, forget-IsKept it log recorded q l k)
  forget-IsKept it (save_failed fields ∷ log) recorded q (_, l) (_, k) =
      (tt, forget-IsKept it log recorded q l k)
  forget-IsKept it (granted a ∷ log) recorded q (_, l) (_, k) =
      (tt, forget-IsKept it log recorded q l k)
  forget-IsKept it (grant_failed a ∷ log) recorded q (_, l) (_, k) =
      (tt, forget-IsKept it log recorded q l k)

  -- A larger record keeps what a smaller one does.
  pub more-IsKept :
      (log : Events) (a b : List Text)
      → ((f : Text) → contains a f ≡ true → contains b f ≡ true)
      → IsKept log a
      → IsKept log b
  more-IsKept [] a b m k = tt
  more-IsKept (revoked it ∷ log) a b m (here, k) = (m (field it) here, more-IsKept log a b m k)
  more-IsKept (revoke_failed it ∷ log) a b m (_, k) = (tt, more-IsKept log a b m k)
  more-IsKept (saved fields ∷ log) a b m (_, k) = (tt, more-IsKept log a b m k)
  more-IsKept (save_failed fields ∷ log) a b m (_, k) = (tt, more-IsKept log a b m k)
  more-IsKept (granted it ∷ log) a b m (_, k) = (tt, more-IsKept log a b m k)
  more-IsKept (grant_failed it ∷ log) a b m (_, k) = (tt, more-IsKept log a b m k)

  pub later : (e : Event) (f : Text) (log : Events) → WasRecorded f log → WasRecorded f (e ∷ log)
  later e f log (inl a) = inl a
  later e f log (inr b) = inr (inr b)

  pub listed-forget :
      (recorded : List Text) (g f : Text)
      → contains (forget recorded g) f ≡ true
      → contains recorded f ≡ true
  listed-forget recorded g f h = ground (arith, h, contains-forget recorded g f)

pub contains-record_of :
    (recorded : List Text) (it : Item)
    → contains recorded (field it) ≡ true
    → contains (record_of recorded) (field it) ≡ true
unfolding record_among contains text_beq
contains-record_of recorded connect h = ground (arith, h)
contains-record_of recorded temporary h = ground (arith, h)
contains-record_of recorded schema_usage h = ground (arith, h)
contains-record_of recorded schema_create h = ground (arith, h)
