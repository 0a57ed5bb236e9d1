-- ===== src/Objects/Justified.antt =====
-- Every privilege that the planner wants granted is justified by an entry of the spec and an object
-- that it may be granted on.
use pgop.Prelude.{
  true, ◌||◌, List, [], ◌∷◌, ◌++◌, ◌≡◌, sym, ap, ◌∙◌, arith, ◌==◌, contains, All, is_empty, refl,
  false, if◌then◌else◌, Option, none, some, Result, ok, err, >>=-eq-ok, Bool-cases, inl, inr,
  eq_of_==,
}
use mathlib.Core.Path.{subst}
use pgop.Text.{Text, text_eq}
use pgop.Grants.Engine.{CallError}
use pgop.Grants.Target.{PrivilegeGrant, GrantTarget, key, desired_grant}
use pgop.Grants.Ledger.{Ledger, get, put, keys, merge_grant, get-put}
use pgop.Policy.Roles.{ManagedRoles}
use pgop.Objects.{object_target, SchemaObject}
use pgop.Objects.Entries.{ObjectEntry}
use pgop.Objects.Owners.{OwnerVerdict, Skip, owner_problem}
use pgop.Objects.Groups.{ObjectReads, ObjectGroup, group_key, group_at, selected, missing_names}
use pgop.Objects.Planner.{
  ObjectPlan, Granted, granted_on, with_skip, with_desired, add_granted, add, add_all, add_entry,
  add_each,
}
use pgop.Objects.Safety.{IsGrantable, owner_problem-IsGrantable, granted_on-asked}

-- Every privilege of a ledger has its reason; `list` reads the privileges, or the grant options.
module _ (list : PrivilegeGrant → List Text) (P : Text → Text → Type 0) where
  abbrev pub HasReasons : Ledger → Type 0
  HasReasons m = (k x : Text) → contains (list (get m k)) x ≡ true → P k x

  module _
      (merges : (a b : PrivilegeGrant) (x : Text)
        → contains (list (merge_grant a b)) x ≡ (contains (list a) x || contains (list b) x)) where
    put-HasReasons :
        (m : Ledger) (k : Text) (g : PrivilegeGrant)
        → ((x : Text) → contains (list g) x ≡ true → P k x)
        → HasReasons m
        → HasReasons (put m k g)
    put-HasReasons m k g new h j x c = elim (Bool-cases (k == j)) [
      | inl e ↦
          subst (λ i. P i x) (eq_of_== k j e)
            (new x (ap (λ y. contains (list y) x) (sym (get-put m k j g ∙ ground (arith, e))) ∙ c))
      | inr e ↦
          h j x (ap (λ y. contains (list y) x) (sym (get-put m k j g ∙ ground (arith, e))) ∙ c)
    ]

    with_desired-HasReasons :
        (p : ObjectPlan) (e : ObjectEntry) (d : PrivilegeGrant)
        → ((x : Text) → contains (list d) x ≡ true → P (key d.target) x)
        → HasReasons p.desired
        → HasReasons (with_desired p e d).desired
    unfolding with_desired
    with_desired-HasReasons p e d new h =
        let k = key d.target in
        let g = merge_grant (get p.desired k) d in
        elim (Bool-cases (contains (keys p.desired) k)) [
          | inl f ↦ rw f (put-HasReasons p.desired k g either h)
          | inr f ↦ rw f (put-HasReasons p.desired k d new h)
        ]
      where
        either :
            (x : Text)
            → contains (list (merge_grant (get p.desired (key d.target)) d)) x ≡ true
            → P (key d.target) x
        either x c = elim (Bool-cases (contains (list d) x)) [
          | inl f ↦ new x f
          | inr f ↦
              h (key d.target) x (ground (arith, c, f, merges (get p.desired (key d.target)) d x))
        ]

abbrev pub target_of : ObjectEntry → SchemaObject → GrantTarget
target_of e o = object_target e.kind e.schema o.identity o.oid e.grantee

module _ (reads : ObjectReads) (managed : ManagedRoles) (IsEntry : ObjectEntry → Type 0)
    (IsListed : ObjectEntry → SchemaObject → Type 0) where
  -- A privilege of the entry that may be granted on the object.
  abbrev pub IsAsked : ObjectEntry → SchemaObject → Text → Type 0
  IsAsked e o x =
      (contains e.privileges x ≡ true) × IsGrantable reads.lookup_role managed e.kind o x

  granted_on-IsAsked :
      (e : ObjectEntry) (o : SchemaObject) (v : OwnerVerdict)
      → owner_problem reads.lookup_role managed e.kind o ≡ ok v
      → (x : Text) → contains (granted_on e o v).0 x ≡ true
      → IsAsked e o x
  granted_on-IsAsked e o (why, denied) h x c =
      let (clear, asked, free) = granted_on-asked e o (why, denied) x c in
      (
        asked,
        owner_problem-IsGrantable reads.lookup_role managed e.kind o denied x
            (h ∙ ap (λ w. ok (w, denied)) clear) free,
      )

  module _ (list : PrivilegeGrant → List Text) (P : Text → Text → Type 0)
      (merges : (a b : PrivilegeGrant) (x : Text)
        → contains (list (merge_grant a b)) x ≡ (contains (list a) x || contains (list b) x))
      (reason : (e : ObjectEntry) (o : SchemaObject) (privs : List Text)
        → IsEntry e
        → IsListed e o
        → ((x : Text) → contains privs x ≡ true → IsAsked e o x)
        → (x : Text)
        → contains (list (desired_grant (target_of e o) privs e.with_grant_option)) x ≡ true
        → P (key (target_of e o)) x) where
    with_skip-HasReasons :
        (p : ObjectPlan) (e : ObjectEntry) (o : SchemaObject) (why : Option Skip)
        → HasReasons list P p.desired
        → HasReasons list P (with_skip p e o why).desired
    with_skip-HasReasons p e o none h = h
    with_skip-HasReasons p e o (some why) h = h

    add_granted-HasReasons :
        (p : ObjectPlan) (e : ObjectEntry) (o : SchemaObject) (g : Granted)
        → IsEntry e
        → IsListed e o
        → ((x : Text) → contains g.0 x ≡ true → IsAsked e o x)
        → HasReasons list P p.desired
        → HasReasons list P (add_granted p e o g).desired
    unfolding add_granted desired_grant
    add_granted-HasReasons p e o (privs, why) known listed asked h =
        elim (Bool-cases (is_empty privs)) [
          | inl f ↦ rw f (with_skip-HasReasons p e o why h)
          | inr f ↦ rw f (
              with_desired-HasReasons list P merges (with_skip p e o why) e
                (desired_grant (target_of e o) privs e.with_grant_option)
                (reason e o privs known listed asked) (with_skip-HasReasons p e o why h))
        ]

    add-HasReasons :
        (p : ObjectPlan) (e : ObjectEntry) (o : SchemaObject)
        → IsEntry e
        → IsListed e o
        → HasReasons list P p.desired
        → (q : ObjectPlan) → add reads managed p e o ≡ ok q
        → HasReasons list P q.desired
    unfolding add
    add-HasReasons p e o known listed h q a =
        let verdict = owner_problem reads.lookup_role managed e.kind o in
        let (v, found, same) =
          >>=-eq-ok verdict (λ v. ok (add_granted p e o (granted_on e o v))) a in
        subst (λ (r : Result CallError ObjectPlan). OkReasons r) same
          (add_granted-HasReasons p e o (granted_on e o v) known listed
            (granted_on-IsAsked e o v found) h)
      where
        OkReasons : Result CallError ObjectPlan → Type 0
        OkReasons (ok r) = HasReasons list P r.desired
        OkReasons (err x) = Unit

    add_all-HasReasons :
        (p : ObjectPlan) (e : ObjectEntry) (os : List SchemaObject)
        → IsEntry e
        → All (IsListed e) os
        → HasReasons list P p.desired
        → (q : ObjectPlan) → add_all reads managed p e os ≡ ok q
        → HasReasons list P q.desired
    unfolding add_all
    add_all-HasReasons p e [] known listed h q a = subst (HasReasons list P) (ground (arith, a)) h
    add_all-HasReasons p e (o ∷ os) known (listed, others) h q a =
        let (next, first, rest) =
          >>=-eq-ok (add reads managed p e o) (λ r. add_all reads managed r e os) a in
        add_all-HasReasons next e os known others (add-HasReasons p e o known listed h next first) q
          rest

    add_entry-HasReasons :
        (p : ObjectPlan) (e : ObjectEntry) (g : Option ObjectGroup)
        → IsEntry e
        → ((x : ObjectGroup) → g ≡ some x → x.failed ≡ false → All (IsListed e) (selected e x))
        → HasReasons list P p.desired
        → (q : ObjectPlan) → add_entry reads managed p e g ≡ ok q
        → HasReasons list P q.desired
    add_entry-HasReasons p e none known lists h q a =
        subst (HasReasons list P) (ground (arith, a)) h
    add_entry-HasReasons p e (some g) known lists h q a = elim (Bool-cases g.failed) [
      | inl f ↦ subst (HasReasons list P) (ground (arith, a, f)) h
      | inr f ↦
          let here = record p {
            not_found =
                if e.all then p.not_found else p.not_found ++ missing_names g e.field e.names;
          } in
          let body : add_all reads managed here e (selected e g) ≡ ok q = ground (arith, a, f) in
          add_all-HasReasons here e (selected e g) known (lists g refl f) h q body
    ]

    pub add_each-HasReasons :
        (groups : List ObjectGroup) (p : ObjectPlan) (es : List ObjectEntry)
        → All IsEntry es
        → ((e : ObjectEntry) (x : ObjectGroup)
            → group_at groups (group_key e.schema e.kind) ≡ some x
            → x.failed ≡ false
            → All (IsListed e) (selected e x))
        → HasReasons list P p.desired
        → (q : ObjectPlan) → add_each reads managed groups p es ≡ ok q
        → HasReasons list P q.desired
    unfolding add_each
    add_each-HasReasons groups p [] known lists h q a =
        subst (HasReasons list P) (ground (arith, a)) h
    add_each-HasReasons groups p (e ∷ es) (known, others) lists h q a =
        let g = group_at groups (group_key e.schema e.kind) in
        let (next, first, rest) =
          >>=-eq-ok (add_entry reads managed p e g) (λ r. add_each reads managed groups r es) a in
        add_each-HasReasons groups next es others lists
          (add_entry-HasReasons p e g known (lists e) h next first) q rest
