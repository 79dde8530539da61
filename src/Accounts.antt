-- ===== src/Accounts.antt =====
-- app/auth.py and app/api/auth.py: the limit of signups from one address, signup, and the API key.
pub mod Limit
pub mod Unique
use right_hire.Base.{
  ℕ, suc, ◌+◌, Bool, true, false, Option, none, some, List, [], ◌∷◌, ◌++◌, length, Text, text_eq,
  Dict, lookup_or, insert, leb, ltb, is_empty, is_some, first_where, select_where, update_where,
  ◌==◌, if◌then◌else◌,
}
use right_hire.Base.Int.{pos}
use right_hire.Config.{Settings}
use right_hire.Store.{User, System, World}
use right_hire.Http.{Handler, Result, ok, err, pure, raise_if, or_raise, ◌>>=◌, ◌>>◌}

-- `_SIGNUP_WINDOW_SECONDS` and `_SIGNUP_MAX_PER_WINDOW`
abbrev pub signup_window : ℕ
signup_window = 3600

abbrev pub signup_max : ℕ
signup_max = 5

-- `now - t < _SIGNUP_WINDOW_SECONDS`
abbrev pub in_window : ℕ → ℕ → Bool
in_window now t = ltb now (t + signup_window)

abbrev pub recent : ℕ → Text → Dict (List ℕ) → List ℕ
recent now ip attempts = select_where (in_window now) (lookup_or ip [] attempts)

-- `_check_signup_rate_limit`: whether it lets the address through, and the table of attempts.
unfoldable pub check_signup_rate_limit : ℕ → Text → Dict (List ℕ) → Bool × Dict (List ℕ)
check_signup_rate_limit now ip attempts =
    let kept = recent now ip attempts in
    if leb signup_max (length kept)
    then (false, insert ip kept attempts)
    else (true, insert ip (kept ++ now ∷ []) attempts)

abbrev pub new_user : World → Settings → ℕ → Text → System → User
new_user w conf key_hash email s = record {
  id = w.uuid s.drawn;
  email = email;
  api_key_hash = key_hash;
  credits = pos conf.signup_free_credits;
  created_at = w.now;
}

abbrev pub add_user : User → System → System
add_user u s = record s { db = record s.db { users = s.users ++ u ∷ [] }; drawn = suc s.drawn }

abbrev pub register : World → Settings → ℕ → Text → Handler User
register w conf key_hash email s = let u = new_user w conf key_hash email s in (ok u, add_user u s)

abbrev pub is_taken : Text → List User → Bool
is_taken email us = is_some (first_where (λ u. text_eq u.email email) us)

abbrev pub refuse_taken : Text → Handler (Unit {0})
refuse_taken email s = raise_if (is_taken email s.users) 409 s

-- The body of `signup` after the rate limit.
abbrev pub sign_up : World → Settings → ℕ → Text → Handler User
sign_up w conf key_hash email = refuse_taken email >> register w conf key_hash email

-- `signup`, over the clock of the process, the client's address, the hash of the new key, and the
-- table of attempts, which it returns.
unfoldable pub signup :
    World
    → Settings
    → ℕ
    → Text
    → ℕ
    → Text
    → Dict (List ℕ)
    → System
    → (Result User × System) × Dict (List ℕ)
unfolding check_signup_rate_limit
signup w conf now ip key_hash email attempts s =
    let checked = check_signup_rate_limit now ip attempts in
    (if checked.0 then sign_up w conf key_hash email s else (err 429, s), checked.1)

-- `rotate_key`
unfoldable pub rotate_key : ℕ → User → System → System
rotate_key key_hash user s = record s {
  db = record s.db {
    users = update_where (λ u. u.id == user.id) (λ u. record u { api_key_hash = key_hash }) s.users;
  };
}

abbrev by_key : (Text → ℕ) → Text → List User → Option User
by_key hash_api_key key = first_where (λ u. u.api_key_hash == hash_api_key key)

-- `get_current_user`, over the hash of a key.
unfoldable pub get_current_user : (Text → ℕ) → Option Text → Handler User
get_current_user hash_api_key header s = elim header [
  | none ↦ (err 401, s)
  | some key ↦
      if is_empty key then (err 401, s) else or_raise (by_key hash_api_key key s.users) 401 s
]
