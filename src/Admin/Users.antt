-- ===== src/Admin/Users.antt =====
-- app/api/admin.py: the list of the users, the edit of one, and the reset of a key.
pub mod Addresses
use right_hire.Base.{
  ℕ, zero, suc, Bool, true, false, not, ◌&&◌, Option, none, some, List, Text, text_eq, count_where,
  update_where, ◌==◌,
}
use right_hire.Base.Int.{ℤ}
use right_hire.Store.{User, System}
use right_hire.Http.{Handler, ok, err, ◌>>=◌, ◌>>◌}
use right_hire.Admin.{require_admin, get_user_row}

pub record UserUpdate : Type 0 where
  pub email : Option Text
  pub credits : Option ℤ

-- `list_users`, without its order.
unfoldable pub list_users : Text → Option Text → Handler (List User)
unfolding require_admin
list_users admin_key header = do require_admin admin_key header; (λ s. (ok s.users, s))

-- `User.email == email, User.id != user_id`
abbrev pub is_other : ℕ → Text → User → Bool
is_other user_id email u = text_eq u.email email && not (u.id == user_id)

-- `existing.scalar_one_or_none()`: one row is the conflict, and of several the call itself raises.
abbrev pub refuse_existing : ℕ → Handler (Unit {0})
refuse_existing zero s = (ok tt, s)
refuse_existing (suc zero) s = (err 409, s)
refuse_existing (suc (suc n)) s = (err 500, s)

abbrev pub check_email : ℕ → Option Text → Handler (Unit {0})
check_email user_id none s = (ok tt, s)
check_email user_id (some email) s =
    refuse_existing (count_where (is_other user_id email) s.users) s

abbrev pub updated : UserUpdate → User → User
updated body u = record u {
  email = elim body.email [ none ↦ u.email | some email ↦ email ];
  credits = elim body.credits [ none ↦ u.credits | some n ↦ n ];
}

abbrev pub save_user : ℕ → (User → User) → System → System
save_user user_id f s = record s {
  db = record s.db { users = update_where (λ u. u.id == user_id) f s.users };
}

abbrev pub save_row : ℕ → (User → User) → User → Handler User
save_row user_id f user s = (ok (f user), save_user user_id f s)

-- `update_user`; the answer is the row.
unfoldable pub update_user : Text → Option Text → ℕ → UserUpdate → Handler User
unfolding require_admin
update_user admin_key header user_id body = do
  require_admin admin_key header
  user ← get_user_row user_id
  check_email user_id body.email
  save_row user_id (updated body) user

abbrev pub with_key : ℕ → User → User
with_key key_hash u = record u { api_key_hash = key_hash }

-- `reset_api_key`, over the hash of the new key.
unfoldable pub reset_api_key : Text → Option Text → ℕ → ℕ → Handler User
unfolding require_admin
reset_api_key admin_key header key_hash user_id = do
  require_admin admin_key header
  user ← get_user_row user_id
  save_row user_id (with_key key_hash) user
