-- ===== src/Passwords/Choice.antt =====
-- The three ways in which a password is chosen.
use pgop.Prelude.{
  ℕ, Bool, true, false, not, ◌&&◌, ◌||◌, [], ◌∷◌, ◌≡◌, inl, inr, refl, Result, ok, err, ◌>>=◌,
  is_empty, arith, Bool-cases,
}
use pgop.Text.{Text, text_eq}
use pgop.Grants.Engine.{CallError}
use pgop.Passwords.{
  Role, DesiredPassword, from_reference, kept, new_password, pending_rotation_request,
  scheduled_rotation_due, choose_password,
}

-- The referenced password; the current one, if no rotation is requested or due; a generated one, if
-- there is none yet or a rotation is requested or due.
pub data Choice (role : Role) (from_ref : Bool) (ref_password current : Text) (now : ℕ)
    : DesiredPassword → Type 0 where
  referenced :
      from_ref ≡ true
      → Choice role from_ref ref_password current now
          (from_reference ref_password (pending_rotation_request role))
  unchanged :
      from_ref ≡ false
      → is_empty current ≡ false
      → pending_rotation_request role ≡ []
      → scheduled_rotation_due role now ≡ false
      → Choice role from_ref ref_password current now (kept current)
  fresh :
      (password : Text)
      → from_ref ≡ false
      → (is_empty current
          || not (is_empty (pending_rotation_request role))
          || scheduled_rotation_due role now)
        ≡ true
      → Choice role from_ref ref_password current now
          (new_password (not (is_empty current)) (pending_rotation_request role) password)

is_empty-nil : (t : Text) → is_empty t ≡ true → t ≡ []
is_empty-nil [] h = refl
is_empty-nil (c ∷ cs) h = cc

module _ (role : Role) (ref_password current : Text) (now : ℕ) where
  abbrev keeps : Bool
  keeps =
      not (is_empty current)
      && is_empty (pending_rotation_request role)
      && not (scheduled_rotation_due role now)

  kept-Choice :
      {dp : DesiredPassword}
      → keeps ≡ true
      → kept current ≡ dp
      → Choice role false ref_password current now dp
  kept-Choice {dp} c same =
      rw (← same) (
        unchanged refl (ground (arith, c)) (is_empty-nil _ (ground (arith, c))) (ground (arith, c)))

  fresh-Choice :
      (generated : Result CallError Text) {dp : DesiredPassword}
      → keeps ≡ false
      → (generated >>= λ password.
          ok (new_password (not (is_empty current)) (pending_rotation_request role) password))
        ≡ ok dp
      → Choice role false ref_password current now dp
  fresh-Choice (err e) c h = absurd (ground (arith, h))
  fresh-Choice (ok password) {dp} c h =
      let same : new_password (not (is_empty current)) (pending_rotation_request role) password
          ≡ dp =
        cc h in
      rw (← same) (fresh password refl (ground (arith, c)))

  pub choose_password-Choice :
      (from_ref : Bool) (generated : Result CallError Text) {dp : DesiredPassword}
      → choose_password role from_ref ref_password current now generated ≡ ok dp
      → Choice role from_ref ref_password current now dp
  unfolding choose_password
  choose_password-Choice true generated {dp} h =
      let same : from_reference ref_password (pending_rotation_request role) ≡ dp = cc h in
      rw (← same) (referenced refl)
  choose_password-Choice false generated {dp} h = elim (Bool-cases keeps) [
    | inl c ↦ let same : kept current ≡ dp = ground (arith, c, h) in kept-Choice c same
    | inr c ↦ fresh-Choice generated c (ground (arith, c, h))
  ]
