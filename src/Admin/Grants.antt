-- ===== src/Admin/Grants.antt =====
-- app/api/billing.py: balances and requests after `admin_grant_credits`.
use right_hire.Base.{
  ℕ, ◌≡◌, ◌≢◌, refl, ◌∙◌, ap, true, Option, some, List, [], ◌∷◌, arith, Text, text_eq, update_where,
  count_where, is_some, is_empty, ==_self, Bool-cases, inl, inr,
}
use mathlib.Core.Option
use right_hire.Base.Int.{ℤ, ◌+ℤ◌}
use right_hire.Store.{User, CreditRequest, System, World}
use right_hire.Http.{Handler, Result, ok, err, raise_if, ◌>>=◌}
use right_hire.Http.Reads.{Reads, Reads-bind, Reads-raise_if, Reads-or_raise, raised, went_on, ran}
use right_hire.Candidates.{find_user, set_credits}
use right_hire.Admin.{
  require_admin, is_open, resolved, GrantCreditsRequest, by_email, grant, user_by_email,
  admin_grant_credits,
}

pub Reads-require_admin :
    (admin_key : Text) (header : Option Text) → Reads (require_admin admin_key header)
unfolding require_admin
Reads-require_admin admin_key header =
    Reads-bind (raise_if (is_empty admin_key) 501) (λ _. raise_if _ 401) (Reads-raise_if _ _)
      (λ _. Reads-raise_if _ _)

Reads-user_by_email : (email : Text) → Reads (user_by_email email)
Reads-user_by_email email = record {
  keeps = λ s. (Reads-or_raise (by_email email s.users) 404).keeps s;
}

-- A grant to the user who has the address.
pub record Granted (body : GrantCreditsRequest) (s : System) (balance : ℤ) (s' : System)
    : Type 0 where
  pub user : User
  pub addressed : by_email body.email s.users ≡ some user
  pub total : balance ≡ user.credits +ℤ body.credits
  pub stored : Option.map (λ u. u.credits) (find_user user.id s'.users) ≡ some balance
  pub others : (i : ℕ) → i ≢ user.id → find_user i s'.users ≡ find_user i s.users
  pub closed : count_where (is_open user.id) s'.credit_requests ≡ 0
  pub others_open :
      (i : ℕ)
      → i ≢ user.id
      → count_where (is_open i) s'.credit_requests ≡ count_where (is_open i) s.credit_requests
  pub candidates : s'.candidates ≡ s.candidates

abbrev pub Outcome : GrantCreditsRequest → System → Result ℤ × System → Type 0
Outcome body s (ok n, s') = Granted body s n s'
Outcome body s (err e, s') = s' ≡ s

find_user-set_credits :
    (i : ℕ) (n : ℤ) (us : List User)
    → is_some (find_user i us) ≡ true
    → Option.map (λ u. u.credits) (find_user i (set_credits i n us)) ≡ some n
find_user-set_credits i n [] h = cc
find_user-set_credits i n (v ∷ us) h = ground (arith, find_user-set_credits i n us)

find_user-by_email :
    (email : Text) (us : List User) (u : User)
    → by_email email us ≡ some u
    → is_some (find_user u.id us) ≡ true
find_user-by_email email [] u h = cc
find_user-by_email email (v ∷ us) u h = elim (Bool-cases (text_eq v.email email)) [
  | inl t ↦ let same : v ≡ u = ground arith in ground (arith, ap (λ x. x.id) same, ==_self u.id)
  | inr t ↦ ground (arith, find_user-by_email email us u (ground arith))
]

find_user-set_credits-other :
    (i j : ℕ) (n : ℤ) (us : List User) → j ≢ i → find_user j (set_credits i n us) ≡ find_user j us
find_user-set_credits-other i j n [] ne = refl
find_user-set_credits-other i j n (v ∷ us) ne =
    ground (arith, find_user-set_credits-other i j n us ne)

none_open :
    (w : World) (i : ℕ) (rs : List CreditRequest)
    → count_where (is_open i) (update_where (is_open i) (resolved w) rs) ≡ 0
none_open w i [] = refl
none_open w i (r ∷ rs) = ground (arith, none_open w i rs)

open_kept :
    (w : World) (i j : ℕ) (rs : List CreditRequest)
    → j ≢ i
    → count_where (is_open j) (update_where (is_open i) (resolved w) rs)
      ≡ count_where (is_open j) rs
open_kept w i j [] ne = refl
open_kept w i j (r ∷ rs) ne = ground (arith, open_kept w i j rs ne)

grant-Outcome :
    (w : World) (body : GrantCreditsRequest) (user : User) (s : System)
    → by_email body.email s.users ≡ some user
    → Outcome body s (grant w body.credits user s)
grant-Outcome w body user s h = record {
  user = user;
  addressed = h;
  total = refl;
  stored =
      find_user-set_credits user.id (user.credits +ℤ body.credits) s.users
        (find_user-by_email body.email s.users user h);
  others = λ i ne. find_user-set_credits-other user.id i (user.credits +ℤ body.credits) s.users ne;
  closed = none_open w user.id s.credit_requests;
  others_open = λ i ne. open_kept w user.id i s.credit_requests ne;
  candidates = refl;
}

abbrev granting : World → GrantCreditsRequest → Handler ℤ
granting w body = user_by_email body.email >>= grant w body.credits

found_by_email :
    (email : Text) (s : System) (u : User)
    → (user_by_email email s).0 ≡ ok u
    → by_email email s.users ≡ some u
found_by_email email s u h = ground arith

-- A grant is refused and changes nothing; or it adds the credits to the balance of the user with the
-- address, closes all open requests of that user and no other, and changes no other user's row.
pub admin_grant_credits-Outcome :
    (w : World) (admin_key : Text) (header : Option Text) (body : GrantCreditsRequest) (s : System)
    → Outcome body s (admin_grant_credits w admin_key header body s)
unfolding admin_grant_credits
admin_grant_credits-Outcome w admin_key header body s =
    elim (ran (require_admin admin_key header) (λ _. granting w body) s
      (Reads-require_admin admin_key header)) [
        | raised e _ out ↦ rw out refl
        | went_on _ _ out ↦
            elim (ran (user_by_email body.email) (grant w body.credits) s
              (Reads-user_by_email body.email)) [
                | raised e _ absent ↦ rw (out ∙ absent) refl
                | went_on user found there ↦
                    rw (out ∙ there)
                      (grant-Outcome w body user s (found_by_email body.email s user found))
              ]
      ]
