-- ===== src/Accounts/Unique.antt =====
-- app/api/auth.py: the addresses of the users after `signup`.
use right_hire.Base.{
  ℕ, ◌≤◌, ◌≡◌, refl, ap, inl, inr, Bool, true, false, List, [], ◌∷◌, ◌++◌, arith, Text, text_eq,
  text_eq_iff, Dict, count_where, count_where-append, Bool-cases,
}
use right_hire.Config.{Settings}
use right_hire.Store.{User, System, World}
use right_hire.Http.{raise_if, ◌>>◌}
use right_hire.Accounts.{check_signup_rate_limit, is_taken, new_user, register, sign_up, signup}

abbrev pub has_email : Text → User → Bool
has_email email u = text_eq u.email email

-- The constraint of the column: no address has two rows.
abbrev pub AreUnique : List User → Type 0
AreUnique us = (email : Text) → count_where (has_email email) us ≤ 1

free_email :
    (email : Text) (us : List User)
    → is_taken email us ≡ false
    → count_where (has_email email) us ≡ 0
free_email email [] h = refl
free_email email (u ∷ us) h = ground (arith, free_email email us)

one_more :
    (u : User) (us : List User)
    → is_taken u.email us ≡ false
    → AreUnique us
    → AreUnique (us ++ u ∷ [])
one_more u us h unique email = elim (Bool-cases (text_eq u.email email)) [
  | inl t ↦
      let same : u.email ≡ email = ground (arith, text_eq_iff u.email email) in
      ground (
        arith,
        count_where-append (has_email email) us (u ∷ []),
        free_email u.email us h,
        ap (λ e. count_where (has_email e) us) same,
      )
  | inr t ↦ ground (arith, count_where-append (has_email email) us (u ∷ []), unique email)
]

module _ (w : World) (conf : Settings) (key_hash : ℕ) (email : Text) (s : System)
    (unique : AreUnique s.users) where
  unless_taken :
      (taken : Bool)
      → is_taken email s.users ≡ taken
      → AreUnique ((raise_if taken 409 >> register w conf key_hash email) s).1.users
  unless_taken true h = unique
  unless_taken false h = one_more (new_user w conf key_hash email s) s.users h unique

  sign_up-AreUnique : AreUnique (sign_up w conf key_hash email s).1.users
  sign_up-AreUnique = unless_taken (is_taken email s.users) refl

-- If no two users share an address, none do after a signup, whether it is refused or not.
pub signup-AreUnique :
    (w : World) (conf : Settings) (now : ℕ) (ip : Text) (key_hash : ℕ) (email : Text)
    (attempts : Dict (List ℕ)) (s : System)
    → AreUnique s.users
    → AreUnique (signup w conf now ip key_hash email attempts s).0.1.users
unfolding signup
signup-AreUnique w conf now ip key_hash email attempts s unique =
    elim (Bool-cases (check_signup_rate_limit now ip attempts).0) [
      | inl t ↦ rw t (sign_up-AreUnique w conf key_hash email s unique)
      | inr t ↦ rw t unique
    ]
