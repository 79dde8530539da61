-- ===== src/Admin.antt =====
-- app/api/billing.py and app/api/admin.py: credit requests, grants, and the operator's table of users.
pub mod Grants
pub mod Deletion
pub mod Users
use right_hire.Base.{
  ℕ, suc, Bool, true, false, not, ◌&&◌, Option, none, some, List, [], ◌∷◌, ◌++◌, map, mem, any,
  take, Text, text_eq, is_empty, is_some, first_where, select_where, delete_where, update_where,
  ◌==◌, if◌then◌else◌,
}
use right_hire.Base.Int.{ℤ, ◌+ℤ◌}
use right_hire.Store.{
  User, Job, Candidate, CreditRequest, RequestStatus, open_request, granted, Db, System, World,
}
use right_hire.Http.{Handler, Result, ok, err, pure, modify, raise_if, or_raise, ◌>>=◌, ◌>>◌}
use right_hire.Candidates.{find_user, set_credits}

-- `_require_admin`: the configured key, and the header.
unfoldable pub require_admin : Text → Option Text → Handler (Unit {0})
require_admin admin_key header = do
  raise_if (is_empty admin_key) 501
  raise_if (not (elim header [ none ↦ false | some key ↦ text_eq key admin_key ])) 401

-- `request_credits`, without the text of its answer.
unfoldable pub request_credits : World → User → System → System
request_credits w user s = record s {
  db = record s.db {
    credit_requests =
        s.credit_requests
        ++ record {
          id = w.uuid s.drawn;
          user_id = user.id;
          status = open_request;
          created_at = w.now;
          resolved_at = none;
        }
          ∷ [];
  };
  drawn = suc s.drawn;
}

-- `user_id == user.id and status == "pending"`
abbrev pub is_open : ℕ → CreditRequest → Bool
is_open user_id r =
    (r.user_id == user_id) && elim r.status [ open_request ↦ true | granted ↦ false ]

abbrev pub resolved : World → CreditRequest → CreditRequest
resolved w r = record r { status = granted; resolved_at = some w.now }

pub record GrantCreditsRequest : Type 0 where
  pub email : Text
  pub credits : ℤ

abbrev pub by_email : Text → List User → Option User
by_email email = first_where (λ u. text_eq u.email email)

abbrev pub granted_to : World → User → ℤ → System → System
granted_to w user n s = record s {
  db = record s.db {
    users = set_credits user.id (user.credits +ℤ n) s.users;
    credit_requests = update_where (is_open user.id) (resolved w) s.credit_requests;
  };
}

abbrev pub grant : World → ℤ → User → Handler ℤ
grant w n user s = (ok (user.credits +ℤ n), granted_to w user n s)

abbrev pub user_by_email : Text → Handler User
user_by_email email s = or_raise (by_email email s.users) 404 s

-- `admin_grant_credits`; the answer is the new balance.
unfoldable pub admin_grant_credits : World → Text → Option Text → GrantCreditsRequest → Handler ℤ
unfolding require_admin
admin_grant_credits w admin_key header body = do
  require_admin admin_key header
  user ← user_by_email body.email
  grant w body.credits user

abbrev pub get_user_row : ℕ → Handler User
get_user_row user_id s = or_raise (find_user user_id s.users) 404 s

-- `get_user`
unfoldable pub get_user : Text → Option Text → ℕ → Handler User
unfolding require_admin
get_user admin_key header user_id = do require_admin admin_key header; get_user_row user_id

-- `select(Job.id).where(Job.user_id == user_id)` and the candidates of these jobs.
abbrev pub job_ids : ℕ → Db → List ℕ
job_ids user_id d = map (λ j. j.id) (select_where (λ j. j.user_id == user_id) d.jobs)

abbrev pub candidate_ids : ℕ → Db → List ℕ
candidate_ids user_id d =
    map (λ c. c.id) (select_where (λ c. mem c.job_id (job_ids user_id d)) d.candidates)

abbrev pub without_evaluations : ℕ → Db → Db
without_evaluations user_id d = if is_empty (candidate_ids user_id d) then d else record d {
  evaluations = delete_where (λ e. mem e.candidate_id (candidate_ids user_id d)) d.evaluations;
}

abbrev pub without_jobs : ℕ → Db → Db
without_jobs user_id d =
    if is_empty (job_ids user_id d)
    then d
    else (let d' = without_evaluations user_id d in
        record d' {
          candidates = delete_where (λ c. mem c.job_id (job_ids user_id d)) d'.candidates;
          jobs = delete_where (λ j. mem j.id (job_ids user_id d)) d'.jobs;
        })

abbrev pub without_user : ℕ → Db → Db
without_user user_id d =
    let d' = without_jobs user_id d in
    record d' { users = delete_where (λ u. u.id == user_id) d'.users }

-- The commit, in a database that enforces foreign keys, as PostgreSQL does: a credit request that still
-- refers to the user's row violates its foreign key, so the database raises and the transaction is
-- rolled back. (SQLite enforces them only when it is told to.)
abbrev pub commit_deletion : ℕ → Handler (Unit {0})
commit_deletion user_id s =
    if any (λ r. r.user_id == user_id) s.credit_requests
    then (err 500, s)
    else (ok tt, record s { db = without_user user_id s.db })

-- `delete_user`
unfoldable pub delete_user : Text → Option Text → ℕ → Handler (Unit {0})
unfolding require_admin
delete_user admin_key header user_id = do
  require_admin admin_key header
  get_user_row user_id
  commit_deletion user_id
