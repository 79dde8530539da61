-- ===== src/Admin/Users/Addresses.antt =====
-- app/api/admin.py: the addresses of the users after an edit.
use right_hire.Base.{
  ℕ, suc, ◌+◌, ◌≤◌, ◌≡◌, refl, ap, ◌∙◌, zero, inl, inr, Bool, true, false, Option, none, some, List,
  [], ◌∷◌, arith, Text, text_eq, text_eq_iff, count_where, Bool-cases, update_where, ◌==◌,
}
use right_hire.Store.{User, System, World}
use right_hire.Config.{Settings}
use right_hire.Base.{Dict}
use right_hire.Candidates.{find_user}
use right_hire.Accounts.{signup, rotate_key}
use right_hire.Http.{Handler, ok, ◌>>=◌}
use right_hire.Http.Reads.{Reads, Reads-or_raise, reads_rules, related-bind}
use right_hire.Base.Int.{ℤ}
use right_hire.Accounts.Unique.{has_email, AreUnique, signup-AreUnique}
use right_hire.Admin.Users.{
  is_other, UserUpdate, updated, check_email, refuse_existing, save_user, save_row, with_key,
  update_user, reset_api_key,
}
use right_hire.Admin.{require_admin, get_user_row}

abbrev has_user_id : ℕ → User → Bool
has_user_id i u = u.id == i

-- The rows of an address after a change of the row of an id: those of other ids, and that row if it has
-- the address now.
module _ (i : ℕ) (f : User → User) (email : Text) where
  moved_in :
      (us : List User)
      → ((u : User) → text_eq (f u).email email ≡ true)
      → count_where (has_email email) (update_where (has_user_id i) f us)
        ≡ count_where (has_user_id i) us + count_where (is_other i email) us
  moved_in [] h = refl
  moved_in (u ∷ us) h = ground (arith, h u, moved_in us h)

  moved_out :
      (us : List User)
      → ((u : User) → text_eq (f u).email email ≡ false)
      → count_where (has_email email) (update_where (has_user_id i) f us)
        ≤ count_where (has_email email) us
  moved_out [] h = ground arith
  moved_out (u ∷ us) h = ground (arith, h u, moved_out us h)

  stayed :
      (us : List User)
      → ((u : User) → (f u).email ≡ u.email)
      → count_where (has_email email) (update_where (has_user_id i) f us)
        ≡ count_where (has_email email) us
  stayed [] h = refl
  stayed (u ∷ us) h = ground (arith, ap (λ e. text_eq e email) (h u), stayed us h)

-- The primary key: no id has two rows.
abbrev pub HaveIds : List User → Type 0
HaveIds us = (i : ℕ) → count_where (λ u. u.id == i) us ≤ 1

-- A handler that keeps the addresses distinct.
record Keeping {A : Type 0} (s : System) (m : Handler A) : Type 0 where
  run : AreUnique s.users → AreUnique (m s).1.users

Keeping-bind :
    {A B : Type 0} (s : System) (m : Handler A) (f : A → Handler B)
    → Reads m
    → ((a : A) → (m s).0 ≡ ok a → Keeping s (f a))
    → Keeping s (m >>= f)
Keeping-bind s m f reads k = record {
  run =
      related-bind (λ s s'. AreUnique s.users → AreUnique s'.users) s m f (λ h. h) reads
        (λ a from. (k a from).run);
}

Reads-refuse_existing : (n : ℕ) → Reads (refuse_existing n)
Reads-refuse_existing zero = record { keeps = λ s. refl }
Reads-refuse_existing (suc zero) = record { keeps = λ s. refl }
Reads-refuse_existing (suc (suc n)) = record { keeps = λ s. refl }

Reads-check_email : (i : ℕ) (email : Option Text) → Reads (check_email i email)
Reads-check_email i none = record { keeps = λ s. refl }
Reads-check_email i (some email) = record {
  keeps = λ s. (Reads-refuse_existing (count_where (is_other i email) s.users)).keeps s;
}

Reads-require_admin : (key : Text) (header : Option Text) → Reads (require_admin key header)
unfolding require_admin
Reads-require_admin key header = search (reads_rules) depth 6

refused_lem : (n : ℕ) (s : System) → (refuse_existing n s).0 ≡ ok tt → n ≡ 0
refused_lem zero s h = refl
refused_lem (suc zero) s h = ground arith
refused_lem (suc (suc n)) s h = ground arith

Keeping-stays :
    (i : ℕ) (f : User → User) (s : System)
    → ((u : User) → (f u).email ≡ u.email)
    → AreUnique s.users
    → AreUnique (save_user i f s).users
Keeping-stays i f s same h email = ground (arith, stayed i f email s.users same, h email)

-- A new address that no other row has.
Keeping-moves :
    (i : ℕ) (f : User → User) (new : Text) (s : System)
    → ((u : User) → (f u).email ≡ new)
    → HaveIds s.users
    → count_where (is_other i new) s.users ≡ 0
    → AreUnique s.users
    → AreUnique (save_user i f s).users
Keeping-moves i f new s moves ids free h email = elim (Bool-cases (text_eq new email)) [
  | inl t ↦
      let same : new ≡ email = ground (arith, text_eq_iff new email) in
      ground (
        arith,
        moved_in i f email s.users (λ u. ap (λ e. text_eq e email) (moves u) ∙ t),
        ids i,
        ap (λ e. count_where (is_other i e) s.users) same,
      )
  | inr t ↦
      ground
        (arith, moved_out i f email s.users (λ u. ap (λ e. text_eq e email) (moves u) ∙ t), h email)
]

Reads-get_user_row : (i : ℕ) → Reads (get_user_row i)
Reads-get_user_row i = record { keeps = λ s. (Reads-or_raise (find_user i s.users) 404).keeps s }

Keeping-edit :
    (i : ℕ) (email : Option Text) (credits : Option ℤ) (user : User) (s : System)
    → HaveIds s.users
    → (check_email i email s).0 ≡ ok tt
    → Keeping s (save_row i (updated (record { email = email; credits = credits })) user)
Keeping-edit i none credits user s ids free = record {
  run = Keeping-stays i (updated (record { email = none; credits = credits })) s (λ u. refl);
}
Keeping-edit i (some new) credits user s ids free = record {
  run =
      Keeping-moves i (updated (record { email = some new; credits = credits })) new s (λ u. refl)
        ids (refused_lem (count_where (is_other i new) s.users) s free);
}

Keeping-update_user :
    (key : Text) (header : Option Text) (i : ℕ) (body : UserUpdate) (s : System)
    → HaveIds s.users
    → Keeping s (update_user key header i body)
unfolding update_user
Keeping-update_user key header i body s ids =
    search (Keeping-bind, Reads-require_admin, Reads-get_user_row, Reads-check_email, edit) depth 14
  where
    edit :
        (user : User)
        → (check_email i body.email s).0 ≡ ok tt
        → Keeping s (save_row i (updated body) user)
    edit user free = Keeping-edit i body.email body.credits user s ids free

Keeping-new_key :
    (i key_hash : ℕ) (user : User) (s : System) → Keeping s (save_row i (with_key key_hash) user)
Keeping-new_key i key_hash user s = record {
  run = Keeping-stays i (with_key key_hash) s (λ u. refl);
}

Keeping-reset_api_key :
    (key : Text) (header : Option Text) (key_hash i : ℕ) (s : System)
    → Keeping s (reset_api_key key header key_hash i)
unfolding reset_api_key
Keeping-reset_api_key key header key_hash i s =
    search (Keeping-bind, Reads-require_admin, Reads-get_user_row, Keeping-new_key) depth 10

-- If no two users share an address or an id, no two share an address after a signup, an edit by the
-- operator, a reset of a key or its change by the user, whether these are refused or not.
pub accounts-AreUnique :
    (w : World) (conf : Settings) (now : ℕ) (ip : Text) (attempts : Dict (List ℕ)) (email : Text)
    (admin_key : Text) (header : Option Text) (body : UserUpdate) (key_hash i : ℕ) (user : User)
    (s : System)
    → HaveIds s.users
    → AreUnique s.users
    → AreUnique (signup w conf now ip key_hash email attempts s).0.1.users
      × AreUnique (update_user admin_key header i body s).1.users
      × AreUnique (reset_api_key admin_key header key_hash i s).1.users
      × AreUnique (rotate_key key_hash user s).users
unfolding rotate_key
accounts-AreUnique w conf now ip attempts email admin_key header body key_hash i user s ids h = (
  signup-AreUnique w conf now ip key_hash email attempts s h,
  (Keeping-update_user admin_key header i body s ids).run h,
  (Keeping-reset_api_key admin_key header key_hash i s).run h,
  Keeping-stays user.id (with_key key_hash) s (λ u. refl) h,
)
