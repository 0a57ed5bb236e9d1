-- ===== src/Tests/Public.antt =====
-- A Database that takes CONNECT from PUBLIC and no longer takes TEMPORARY.
use pgop.Prelude.{false, [], ◌∷◌, ◌≡◌, refl, none, some, ok}
use pgop.Text.{text}
use pgop.Grants.Public.{
  PublicSpec, PublicServer, PublicRun, Item, revoked, granted, saved, record_among,
  reconcile_public_privileges,
}
use pgop.Grants.Public.Accounted.{IsAccounted, reconcile_public_privileges-IsAccounted}

abbrev spec : PublicSpec
spec = record {
  public_privileges = some (record {
    connect = some false;
    temporary = none;
    schema_usage = none;
    schema_create = none;
  });
  grants = [];
  schemas = [];
}

abbrev server : PublicServer
server = record {
  held = λ log. ok (some (text "CONNECT" ∷ []));
  save = λ log fields. none;
  revoke = λ log it. none;
  grant = λ log it. none;
  held_from_any_grantor = λ log it. ok false;
}

abbrev run : PublicRun
run = reconcile_public_privileges server spec false (text "temporary" ∷ [])

ran :
    run.log
    ≡ granted Item.temporary
      ∷ revoked Item.connect
      ∷ saved (text "connect" ∷ text "temporary" ∷ [])
      ∷ []
unfolding reconcile_public_privileges pgop.Prelude.contains pgop.Text.text_beq record_among
ran = refl

left : run.status ≡ text "connect" ∷ []
unfolding reconcile_public_privileges pgop.Prelude.contains pgop.Text.text_beq record_among
    pgop.Settings.forget
left = refl

reconcile_public_privileges-IsAccounted_example :
    IsAccounted server spec (text "temporary" ∷ []) run.log run.status
reconcile_public_privileges-IsAccounted_example =
    reconcile_public_privileges-IsAccounted server spec (text "temporary" ∷ []) false
