-- ===== src/Roles/Precedence.antt =====
-- At most one Role of a Cluster manages a PostgreSQL role, the oldest one.
use pgop.Prelude.{
  true, false, List, [], ◌∷◌, ◌==◌, nat_eq, ◌≡◌, ◌≢◌, ◌⊎◌, inl, inr, sym, ap, ◌∙◌, Option, none,
  some, ok, arith, Bool-cases, ==-refl, eq_of_==,
}
use pgop.Text.{Text, text_eq}
use pgop.Text.Sort.Order.{text_lt, text_lt_total}
use pgop.Roles.{
  Role, postgres_name, RoleError, reserved_role_name, created_before, insert_role, sort_roles,
  of_cluster, list_cluster_roles, older_namesake, check_role_name,
}

-- Of two Roles with different names, one was created before the other.
created_before_total :
    (a b : Role) → a.name ≢ b.name → created_before a b ≡ false → created_before b a ≡ true
unfolding created_before
created_before_total a b d h = elim (Bool-cases (text_lt b.name a.name)) [
  | inl later ↦ ground (arith, h, later)
  | inr no_later ↦ elim (Bool-cases (text_lt a.name b.name)) [
    | inl earlier ↦ ground (arith, h, earlier, no_later)
    | inr no_earlier ↦ absurd (d (text_lt_total a.name b.name no_earlier no_later))
  ]
]

abbrev pub Among : Role → List Role → Type 0
Among r [] = ⊥
Among r (x ∷ xs) = (r ≡ x) ⊎ Among r xs

insert_role-Among : (r x : Role) (xs : List Role) → Among r (x ∷ xs) → Among r (insert_role x xs)
unfolding insert_role
insert_role-Among r x [] h = h
insert_role-Among r x (y ∷ ys) h = elim (Bool-cases (created_before y x)) [
  | inl e ↦ rw e (moved (insert_role-Among r x ys) h)
  | inr e ↦ rw e h
]
  where
    moved :
        (Among r (x ∷ ys) → Among r (insert_role x ys))
        → Among r (x ∷ y ∷ ys)
        → Among r (y ∷ insert_role x ys)
    moved f (inl same) = inr (f (inl same))
    moved f (inr (inl same)) = inl same
    moved f (inr (inr later)) = inr (f (inr later))

sort_roles-Among : (r : Role) (rs : List Role) → Among r rs → Among r (sort_roles rs)
unfolding sort_roles
sort_roles-Among r [] h = elim h [ ]
sort_roles-Among r (x ∷ xs) (inl same) = insert_role-Among r x (sort_roles xs) (inl same)
sort_roles-Among r (x ∷ xs) (inr later) =
    insert_role-Among r x (sort_roles xs) (inr (sort_roles-Among r xs later))

of_cluster-Among :
    (r : Role) (cluster : Text) (rs : List Role)
    → Among r rs
    → r.cluster ≡ cluster
    → Among r (of_cluster cluster rs)
unfolding of_cluster
of_cluster-Among r cluster [] h c = elim h [ ]
of_cluster-Among r cluster (x ∷ xs) (inl same) c =
    let here : (x.cluster == cluster) ≡ true =
      ap (λ y. y.cluster == cluster) (sym same) ∙ ap (λ t. t == cluster) c ∙ ==-refl cluster in
    rw here (inl same)
of_cluster-Among r cluster (x ∷ xs) (inr later) c = elim (Bool-cases (x.cluster == cluster)) [
  | inl e ↦ rw e (inr (of_cluster-Among r cluster xs later c))
  | inr e ↦ rw e (of_cluster-Among r cluster xs later c)
]

-- An older Role with the name is found.
older_namesake-found :
    (role other : Role) (name : Text) (rs : List Role)
    → Among other rs
    → (other.uid == role.uid) ≡ false
    → postgres_name other ≡ name
    → created_before other role ≡ true
    → older_namesake role name rs ≢ none
unfolding older_namesake
older_namesake-found role other name [] a u n c h = elim a [ ]
older_namesake-found role other name (x ∷ xs) (inl same) u n c h =
    let uid : (x.uid == role.uid) ≡ false = ap (λ y. y.uid == role.uid) (sym same) ∙ u in
    let named : (postgres_name x == name) ≡ true =
      ap (λ y. postgres_name y == name) (sym same) ∙ ap (λ t. t == name) n ∙ ==-refl name in
    let before : created_before x role ≡ true = ap (λ y. created_before y role) (sym same) ∙ c in
    absurd (ground (arith, uid, named, before, h))
older_namesake-found role other name (x ∷ xs) (inr later) u n c h =
    older_namesake-found role other name xs later u n c (ground (arith, h))

-- A Role that passes has no older namesake among the Roles of its Cluster.
passes_alone :
    (items : List Role) (role other : Role) (name : Text)
    → check_role_name (ok items) role name ≡ none
    → Among other items
    → other.cluster ≡ role.cluster
    → (other.uid == role.uid) ≡ false
    → postgres_name other ≡ name
    → created_before other role ≢ true
unfolding check_role_name list_cluster_roles
passes_alone items role other name p a c u n b = after (reserved_role_name name) p
  where
    after :
        (o : Option RoleError)
        → (elim o [
          | some e ↦ some e
          | none ↦ older_namesake role name (sort_roles (of_cluster role.cluster items))
        ])
          ≡ none
        → ⊥
    after (some e) q = absurd (ground (arith, q))
    after none q =
        older_namesake-found role other name (sort_roles (of_cluster role.cluster items))
          (sort_roles-Among other _ (of_cluster-Among other role.cluster items a c)) u n b q

-- Of two Roles of a Cluster with the same PostgreSQL name, at most one passes the check of its name.
pub check_role_name-one :
    (items : List Role) (a b : Role) (name : Text)
    → Among a items
    → Among b items
    → a.cluster ≡ b.cluster
    → (a.uid == b.uid) ≡ false
    → a.name ≢ b.name
    → postgres_name a ≡ name
    → postgres_name b ≡ name
    → check_role_name (ok items) a name ≡ none
    → check_role_name (ok items) b name ≢ none
check_role_name-one items a b name in_a in_b c u d na nb pa pb =
    elim (Bool-cases (created_before a b)) [
      | inl a_first ↦ passes_alone items b a name pb in_a c u na a_first
      | inr b_first ↦
          passes_alone items a b name pa in_b (sym c)
            (ground (arith, u, eq_of_== b.uid a.uid, ==-refl a.uid)) nb
            (created_before_total a b d b_first)
    ]
