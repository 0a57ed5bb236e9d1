-- ===== src/Grants/Sets.antt =====
-- `subtract`, `intersect` and `union` of internal/controller/privilege_grants.go, and what they
-- hold.
use pgop.Prelude.{
  not, ◌&&◌, ◌||◌, List, [], ◌∷◌, ◌++◌, ◌≡◌, refl, ◌∙◌, arith, if◌then◌else◌, contains,
  contains-append,
}
use pgop.Text.{Text, text_eq, text_beq_iff}
use pgop.Text.Sort.{sort, compact, contains-sort, contains-compact, compact-sort-IsStrict, IsStrict}

unfoldable pub subtract : List Text → List Text → List Text
subtract [] b = []
subtract (x ∷ a) b = let out = subtract a b in if contains b x then out else x ∷ out

unfoldable pub intersect : List Text → List Text → List Text
intersect [] b = []
intersect (x ∷ a) b = let out = intersect a b in if contains b x then x ∷ out else out

unfoldable pub union : List Text → List Text → List Text
union a b = compact (sort (a ++ b))

pub contains-subtract :
    (a b : List Text) (p : Text) → contains (subtract a b) p ≡ (contains a p && not (contains b p))
unfolding subtract contains
contains-subtract [] b p = refl
contains-subtract (x ∷ a) b p = ground (arith, contains-subtract a b p, text_beq_iff x p)

pub contains-intersect :
    (a b : List Text) (p : Text) → contains (intersect a b) p ≡ (contains a p && contains b p)
unfolding intersect contains
contains-intersect [] b p = refl
contains-intersect (x ∷ a) b p = ground (arith, contains-intersect a b p, text_beq_iff x p)

pub contains-union :
    (a b : List Text) (p : Text) → contains (union a b) p ≡ (contains a p || contains b p)
unfolding union
contains-union a b p =
    contains-compact (sort (a ++ b)) p ∙ contains-sort (a ++ b) p ∙ contains-append a b p

pub union-IsStrict : (a b : List Text) → IsStrict (union a b)
unfolding union
union-IsStrict a b = compact-sort-IsStrict (a ++ b)
