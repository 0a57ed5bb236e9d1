-- ===== src/Objects/Listed.antt =====
-- The objects that an entry selects are listed in its schema, of its kind, and it asks for them.
use pgop.Prelude.{
  ℕ, Bool, true, false, ◌&&◌, ◌||◌, ◌⊎◌, List, [], ◌∷◌, ◌++◌, ◌≡◌, ◌≢◌, refl, sym, ap, ap₂, ◌∙◌,
  arith, ◌==◌, nat_eq, eq_of_==, ==-refl, contains, ltb, length, All, All-map, All-append,
  if◌then◌else◌, Option, none, some, Result, ok, err, Bool-cases, inl, inr,
}
use mathlib.Core.Path.{subst}
use pgop.Text.{Text, text_eq, text}
use pgop.Text.Sort.{sort, compact}
use pgop.Grants.Engine.{CallError}
use pgop.Objects.{
  ObjectKind, table, sequence, function, procedure, type, pg_name, is_routine, parse_routine_name,
  SchemaObject,
}
use pgop.Objects.Entries.{ObjectEntry}
use pgop.Objects.Groups.{
  Selector, ObjectReads, ObjectGroup, group_key, key_of_group, add_to_groups, groups_of,
  max_objects_per_kind, with_routine, select_name, select_names, listed_group, first_selector,
  list_group, list_groups, oid_of, has_oid, is_signature, matches, matching, selected_names,
  selected, group_at,
}

abbrev pub IsAmong : SchemaObject → List SchemaObject → Type 0
IsAmong o [] = ⊥
IsAmong o (x ∷ xs) = (x ≡ o) ⊎ IsAmong o xs

all-IsAmong : (os : List SchemaObject) → All (λ o. IsAmong o os) os
all-IsAmong [] = tt
all-IsAmong (x ∷ xs) = (inl refl, All-map (λ o m. inr m) xs (all-IsAmong xs))

-- Texts that end in the same separator and a text without it.
separated-ends : (sep : ℕ) (a x : Text) → All (λ c. c ≢ sep) (a ++ sep ∷ x) → ⊥
separated-ends sep [] x (h, _) = h refl
separated-ends sep (c ∷ cs) x (_, h) = separated-ends sep cs x h

split_end :
    (sep : ℕ) (a b x y : Text)
    → All (λ c. c ≢ sep) x
    → All (λ c. c ≢ sep) y
    → a ++ sep ∷ x ≡ b ++ sep ∷ y
    → (a ≡ b) × (x ≡ y)
split_end sep [] [] x y h k e = (refl, cc)
split_end sep [] (d ∷ ds) x y h k e =
    let tail : x ≡ ds ++ sep ∷ y = cc in
    absurd (separated-ends sep ds y (subst (All (λ c. c ≢ sep)) tail h))
split_end sep (c ∷ cs) [] x y h k e =
    let tail : y ≡ cs ++ sep ∷ x = cc in
    absurd (separated-ends sep cs x (subst (All (λ c. c ≢ sep)) tail k))
split_end sep (c ∷ cs) (d ∷ ds) x y h k e =
    let (same, rest) = split_end sep cs ds x y h k (cc) in
    (ap₂ (λ (p : ℕ) (q : Text). p ∷ q) (cc) same, rest)

-- The kind of a name.
kind_named : Text → ObjectKind
kind_named k =
    if k == text "TABLE"
    then table
    else if k == text "SEQUENCE"
    then sequence
    else if k == text "FUNCTION"
    then function
    else if k == text "PROCEDURE"
    then procedure
    else type

kind_named-pg_name : (kind : ObjectKind) → kind_named (pg_name kind) ≡ kind
unfolding kind_named pgop.Text.text_beq
kind_named-pg_name table = refl
kind_named-pg_name sequence = refl
kind_named-pg_name function = refl
kind_named-pg_name procedure = refl
kind_named-pg_name type = refl

has_bar : Text → Bool
has_bar [] = false
has_bar (c ∷ cs) = c == b'|' || has_bar cs

no_bar : (t : Text) → has_bar t ≡ false → All (λ c. c ≢ b'|') t
unfolding has_bar
no_bar [] h = tt
no_bar (c ∷ cs) h = ((λ e. ground (arith, h, e)), no_bar cs (ground (arith, h)))

pg_name-no_bar : (kind : ObjectKind) → All (λ c. c ≢ b'|') (pg_name kind)
unfolding has_bar
pg_name-no_bar table = no_bar (pg_name table) refl
pg_name-no_bar sequence = no_bar (pg_name sequence) refl
pg_name-no_bar function = no_bar (pg_name function) refl
pg_name-no_bar procedure = no_bar (pg_name procedure) refl
pg_name-no_bar type = no_bar (pg_name type) refl

group_key-injective :
    (s t : Text) (k l : ObjectKind) → group_key s k ≡ group_key t l → (s ≡ t) × (k ≡ l)
group_key-injective s t k l e =
    let (schema, name) =
      split_end b'|' s t (pg_name k) (pg_name l) (pg_name-no_bar k) (pg_name-no_bar l) e in
    (schema, sym (kind_named-pg_name k) ∙ ap kind_named name ∙ kind_named-pg_name l)

module _ (reads : ObjectReads) where
  -- The text is the signature of a routine of the schema, which has the OID.
  abbrev pub IsSignatureOf : Text → Text → ℕ → Type 0
  IsSignatureOf schema n oid =
      (p : Text × Text) × (parse_routine_name n ≡ some p)
      × (reads.resolve_routine schema p.0 p.1 ≡ ok (some oid))

  abbrev AreSigs : Text → List (Text × ℕ) → Type 0
  AreSigs schema sigs = All (λ s. IsSignatureOf schema s.0 s.1) sigs

  -- An object that is listed in the schema and of the kind of the entry, which asks for all of these,
  -- for its name, or for the signature of the routine.
  abbrev pub IsListed : ObjectEntry → SchemaObject → Type 0
  IsListed e o =
      (sel : Selector) × (objects : List SchemaObject) × (reads.list_objects e.schema e.kind sel
        ≡ ok objects)
      × IsAmong o objects
      × ((e.all ≡ true)
          ⊎ ((n : Text) × (contains e.names n ≡ true)
              × ((o.name ≡ n) ⊎ IsSignatureOf e.schema n o.oid)))

  -- What `list` keeps of a group.
  record IsGroup (s : Text) (k : ObjectKind) (g : ObjectGroup) : Type 0 where
    schema : g.schema ≡ s
    kind : g.kind ≡ k
    sigs : AreSigs s g.sigs

  select_name-IsGroup :
      (schema : Text) (kind : ObjectKind) (n : Text) (g : ObjectGroup) (sel : Selector)
      → IsGroup schema kind g
      → IsGroup schema kind (select_name reads n (parse_routine_name n) (g, sel)).0
  select_name-IsGroup schema kind n g sel i = of_parsed (parse_routine_name n) refl
    where
      of_answer :
          (p : Text × Text) (r : Result CallError (Option ℕ))
          → parse_routine_name n ≡ some p
          → reads.resolve_routine g.schema p.0 p.1 ≡ r
          → IsGroup schema kind (with_routine n r (g, sel)).0
      of_answer p (err e) a b = record { schema = i.schema; kind = i.kind; sigs = i.sigs }
      of_answer p (ok none) a b = i
      of_answer p (ok (some oid)) a b = record {
        schema = i.schema;
        kind = i.kind;
        sigs = ((p, a, ap (λ s. reads.resolve_routine s p.0 p.1) (sym i.schema) ∙ b), i.sigs);
      }

      of_parsed :
          (o : Option (Text × Text))
          → parse_routine_name n ≡ o
          → IsGroup schema kind (select_name reads n o (g, sel)).0
      of_parsed none a = i
      of_parsed (some (name, args)) a = elim (Bool-cases (is_routine g.kind)) [
        | inl f ↦ rw f (of_answer (name, args) (reads.resolve_routine g.schema name args) a refl)
        | inr f ↦ rw f i
      ]

  select_names-IsGroup :
      (schema : Text) (kind : ObjectKind) (ns : List Text) (x : ObjectGroup × Selector)
      → IsGroup schema kind x.0
      → IsGroup schema kind (select_names reads ns x).0
  unfolding select_names
  select_names-IsGroup schema kind [] x i = i
  select_names-IsGroup schema kind (n ∷ ns) (g, sel) i =
      select_names-IsGroup schema kind ns (select_name reads n (parse_routine_name n) (g, sel))
        (select_name-IsGroup schema kind n g sel i)

  -- A group whose objects could be listed.
  record IsListedGroup (g : ObjectGroup) : Type 0 where
    sel : Selector
    answer : reads.list_objects g.schema g.kind sel ≡ ok g.objects
    sigs : AreSigs g.schema g.sigs

  listed_group-IsListedGroup :
      (schema : Text) (kind : ObjectKind) (g : ObjectGroup) (sel : Selector)
      (r : Result CallError (List SchemaObject))
      → IsGroup schema kind g
      → reads.list_objects schema kind sel ≡ r
      → (listed_group g r).failed ≡ false
      → IsListedGroup (listed_group g r)
  listed_group-IsListedGroup schema kind g sel (err e) i a f = absurd (ground (arith, f))
  listed_group-IsListedGroup schema kind g sel (ok objects) i a f =
      elim (Bool-cases (g.all && ltb max_objects_per_kind (length objects))) [
        | inl many ↦ absurd (ground (arith, many, f))
        | inr few ↦ rw few (record {
          sel = sel;
          answer =
              ap₂ (λ (s : Text) (k : ObjectKind). reads.list_objects s k sel) i.schema i.kind ∙ a;
          sigs = subst (λ s. AreSigs s g.sigs) (sym i.schema) i.sigs;
        })
      ]

  list_group-IsListedGroup :
      (g : ObjectGroup)
      → AreSigs g.schema g.sigs
      → (list_group reads g).failed ≡ false
      → IsListedGroup (list_group reads g)
  unfolding list_group
  list_group-IsListedGroup g h f =
      let out = select_names reads (compact (sort g.names)) (g, first_selector g.all) in
      listed_group-IsListedGroup g.schema g.kind out.0 out.1
        (reads.list_objects g.schema g.kind out.1)
        (select_names-IsGroup g.schema g.kind (compact (sort g.names)) (g, first_selector g.all)
          (record { schema = refl; kind = refl; sigs = h }))
        refl f

  group_at-IsListedGroup :
      (gs : List ObjectGroup) (k : Text) (g : ObjectGroup)
      → All (λ x. AreSigs x.schema x.sigs) gs
      → group_at (list_groups reads gs) k ≡ some g
      → g.failed ≡ false
      → IsListedGroup g × (key_of_group g ≡ k)
  unfolding group_at list_groups
  group_at-IsListedGroup [] k g h e f = absurd (ground (arith, e))
  group_at-IsListedGroup (x ∷ xs) k g (h, hs) e f =
      elim (Bool-cases (key_of_group (list_group reads x) == k)) [
        | inr other ↦ group_at-IsListedGroup xs k g hs (ground (arith, e, other)) f
        | inl here ↦
            let same : list_group reads x ≡ g = ground (arith, e, here) in
            let worked : (list_group reads x).failed ≡ false = ap (λ y. y.failed) same ∙ f in
            subst (λ y. IsListedGroup y × (key_of_group y ≡ k)) same
              (
                list_group-IsListedGroup x h worked,
                eq_of_== (key_of_group (list_group reads x)) k here,
              )
      ]

  no_sigs :
      (gs : List ObjectGroup) (e : ObjectEntry)
      → All (λ x. AreSigs x.schema x.sigs) gs
      → All (λ x. AreSigs x.schema x.sigs) (add_to_groups gs e)
  unfolding add_to_groups
  no_sigs [] e h = (tt, tt)
  no_sigs (g ∷ gs) e (h, hs) = elim (Bool-cases (key_of_group g == group_key e.schema e.kind)) [
    | inl f ↦ rw f (h, hs)
    | inr f ↦ rw f (h, no_sigs gs e hs)
  ]

  groups_of-sigs :
      (gs : List ObjectGroup) (es : List ObjectEntry)
      → All (λ x. AreSigs x.schema x.sigs) gs
      → All (λ x. AreSigs x.schema x.sigs) (groups_of gs es)
  unfolding groups_of
  groups_of-sigs gs [] h = h
  groups_of-sigs gs (e ∷ es) h = groups_of-sigs (add_to_groups gs e) es (no_sigs gs e h)

  oid_of-sig :
      (schema : Text) (sigs : List (Text × ℕ)) (n : Text) {oid : ℕ}
      → AreSigs schema sigs
      → oid_of sigs n ≡ some oid
      → IsSignatureOf schema n oid
  unfolding oid_of
  oid_of-sig schema [] n h e = absurd (ground (arith, e))
  oid_of-sig schema ((m, i) ∷ sigs) n {oid} (h, hs) e = elim (Bool-cases (m == n)) [
    | inl f ↦
        let found : i ≡ oid = ground (arith, e, f) in
        subst (λ x. IsSignatureOf schema x oid) (eq_of_== m n f)
          (subst (IsSignatureOf schema m) found h)
    | inr f ↦ oid_of-sig schema sigs n hs (ground (arith, e, f))
  ]

  has_oid-sig :
      (schema : Text) (sigs : List (Text × ℕ)) (n : Text) (o : SchemaObject) (r : Option ℕ)
      → AreSigs schema sigs
      → oid_of sigs n ≡ r
      → has_oid o r ≡ true
      → IsSignatureOf schema n o.oid
  has_oid-sig schema sigs n o none h e t = absurd (ground (arith, t))
  has_oid-sig schema sigs n o (some oid) h e t =
      let same : oid ≡ o.oid = ground (arith, t) in
      subst (IsSignatureOf schema n) same (oid_of-sig schema sigs n h e)

  matches-IsNamed :
      (g : ObjectGroup) (n : Text) (o : SchemaObject)
      → AreSigs g.schema g.sigs
      → matches g n o ≡ true
      → (o.name ≡ n) ⊎ IsSignatureOf g.schema n o.oid
  unfolding matches
  matches-IsNamed g n o h t =
      elim (Bool-cases (is_routine g.kind && is_signature (parse_routine_name n))) [
        | inl f ↦
            inr (has_oid-sig g.schema g.sigs n o (oid_of g.sigs n) h refl (ground (arith, t, f)))
        | inr f ↦ inl (eq_of_== o.name n (ground (arith, t, f)))
      ]

  abbrev IsOf : ObjectGroup → List Text → SchemaObject → Type 0
  IsOf g ns o =
      IsAmong o g.objects
      × ((n : Text) × (contains ns n ≡ true) × ((o.name ≡ n) ⊎ IsSignatureOf g.schema n o.oid))

  matching-IsOf :
      (g : ObjectGroup) (ns : List Text) (n : Text) (os : List SchemaObject)
      → AreSigs g.schema g.sigs
      → contains ns n ≡ true
      → All (λ o. IsAmong o g.objects) os
      → All (IsOf g ns) (matching g n os)
  unfolding matching
  matching-IsOf g ns n [] h c a = tt
  matching-IsOf g ns n (o ∷ os) h c (a, as') = elim (Bool-cases (matches g n o)) [
    | inr f ↦ rw f (matching-IsOf g ns n os h c as')
    | inl f ↦ rw f ((a, (n, c, matches-IsNamed g n o h f)), matching-IsOf g ns n os h c as')
  ]

  selected_names-IsOf :
      (g : ObjectGroup) (ns all : List Text)
      → AreSigs g.schema g.sigs
      → ((n : Text) → contains ns n ≡ true → contains all n ≡ true)
      → All (IsOf g all) (selected_names g ns)
  unfolding selected_names contains
  selected_names-IsOf g [] all h c = tt
  selected_names-IsOf g (n ∷ ns) all h c =
      let rest = selected_names-IsOf g ns all h (λ m k. c m (ground (arith, k))) in
      elim (Bool-cases (is_routine g.kind && contains g.bad_sigs n)) [
        | inl f ↦ rw f rest
        | inr f ↦ rw f (
            All-append (IsOf g all) (matching g n g.objects) (selected_names g ns)
              (matching-IsOf g all n g.objects h (c n (ground (arith, ==-refl n)))
                (all-IsAmong g.objects))
              rest)
      ]

  selected-IsListed :
      (e : ObjectEntry) (g : ObjectGroup)
      → IsListedGroup g
      → g.schema ≡ e.schema
      → g.kind ≡ e.kind
      → All (IsListed e) (selected e g)
  unfolding selected
  selected-IsListed e g l s k = elim (Bool-cases e.all) [
    | inl f ↦
        with_all true f
          (All-map (λ o a. (l.sel, g.objects, answer, a, inl f)) g.objects (all-IsAmong g.objects))
    | inr f ↦ with_all false f (
        All-map (λ o x. (l.sel, g.objects, answer, x.0, inr (x.1.0, x.1.1, named o x.1.0 x.1.2)))
          (selected_names g e.names) (selected_names-IsOf g e.names e.names l.sigs (λ n c. c)))
  ]
    where
      with_all :
          (b : Bool)
          → e.all ≡ b
          → All (IsListed e) (if b then g.objects else selected_names g e.names)
          → All (IsListed e) (if e.all then g.objects else selected_names g e.names)
      with_all b f h =
          subst (λ x. All (IsListed e) (if x then g.objects else selected_names g e.names)) (sym f)
            h

      answer : reads.list_objects e.schema e.kind l.sel ≡ ok g.objects
      answer =
          ap₂ (λ (a : Text) (b : ObjectKind). reads.list_objects a b l.sel) (sym s) (sym k)
          ∙ l.answer

      named :
          (o : SchemaObject) (n : Text)
          → (o.name ≡ n) ⊎ IsSignatureOf g.schema n o.oid
          → (o.name ≡ n) ⊎ IsSignatureOf e.schema n o.oid
      named o n (inl x) = inl x
      named o n (inr x) = inr (subst (λ y. IsSignatureOf y n o.oid) s x)

  -- What an entry selects of its group.
  pub group_at-IsListed :
      (es : List ObjectEntry) (e : ObjectEntry) (g : ObjectGroup)
      → group_at (list_groups reads (groups_of [] es)) (group_key e.schema e.kind) ≡ some g
      → g.failed ≡ false
      → All (IsListed e) (selected e g)
  group_at-IsListed es e g found worked =
      let (l, key) =
        group_at-IsListedGroup (groups_of [] es) (group_key e.schema e.kind) g
          (groups_of-sigs [] es tt) found worked in
      let (s, k) = group_key-injective g.schema e.schema g.kind e.kind key in
      selected-IsListed e g l s k
