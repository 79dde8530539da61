-- ===== src/Linked/Requests.antt =====
-- app/api: what the requests do to the foreign keys of candidates and evaluations.
use mathlib.Core.Path.{subst}
use right_hire.Base.{ℕ, suc, ◌≡◌, refl, ap, List, [], ◌∷◌, ◌++◌, arith, Text, All, All-map_imp, mem}
use right_hire.Store.{
  Candidate, CandidateStatus, failed, Failure, Db, System, World, set_status, has_id,
}
use right_hire.Http.{Handler, ok, ◌>>=◌}
use right_hire.Http.Reads.{Reads, related-bind}
use right_hire.Queue.{enqueue_candidates}
use right_hire.Queue.Laws.{enqueue_candidates_lem}
use right_hire.Candidates.{mark, failure_evaluations, save_status}
use right_hire.Candidates.Remove.Links.{HasSubject}
use right_hire.Linked.{
  Owns, Extends, Extends-same, Extends-trans, Extends-update_candidates, Extends-add_evaluations,
}

-- A run of a handler from a state.
pub record Extending {A : Type 0} (s : System) (m : Handler A) : Type 0 where
  pub run : Extends s.db (m s).1.db

-- A handler whose first part only reads.
pub Extending-bind :
    {A B : Type 0} (s : System) (m : Handler A) (f : A → Handler B)
    → Reads m
    → ((a : A) → (m s).0 ≡ ok a → Extending s (f a))
    → Extending s (m >>= f)
Extending-bind s m f h k = record {
  run =
      related-bind (λ s s'. Extends s.db s'.db) s m f (Extends-same s.db) h
        (λ a done. (k a done).run);
}

pub id-set_status :
    (now : ℕ) (st : CandidateStatus) (c : Candidate) → (set_status now st c).id ≡ c.id
id-set_status now st c = ground arith

pub job_id-set_status :
    (now : ℕ) (st : CandidateStatus) (c : Candidate) → (set_status now st c).job_id ≡ c.job_id
job_id-set_status now st c = ground arith

pub Extends-mark :
    (w : World) (st : CandidateStatus) (ids : List ℕ) (d : Db)
    → Extends d (record d { candidates = mark w.now st ids d.candidates })
Extends-mark w st ids d =
    Extends-update_candidates (λ c. mem c.id ids)
      (λ c. record c { status = st; updated_at = w.now }) d (λ c. refl) (λ c. refl)

pub Extends-save_status :
    (w : World) (i : ℕ) (st : CandidateStatus) (s : System) → Extends s.db (save_status w i st s).db
Extends-save_status w i st s =
    Extends-update_candidates (has_id i) (set_status w.now st) s.db (id-set_status w.now st)
      (job_id-set_status w.now st)

-- An evaluation for each of some candidates of a job.
failure_evaluations-HasSubject :
    (w : World) (n job_id : ℕ) (why : Failure) (model : Text) (cs : List Candidate) (ids : List ℕ)
    → All (λ i. Owns i job_id cs) ids
    → All (HasSubject cs) (failure_evaluations w n job_id why model ids)
unfolding failure_evaluations
failure_evaluations-HasSubject w n job_id why model cs [] h = tt
failure_evaluations-HasSubject w n job_id why model cs (i ∷ ids) h =
    (h.0, failure_evaluations-HasSubject w (suc n) job_id why model cs ids h.1)

-- A mark, with an evaluation for each of the ids.
pub Extends-fail :
    (w : World) (n job_id : ℕ) (why : Failure) (model : Text) (ids : List ℕ) (d : Db)
    → All (λ i. Owns i job_id d.candidates) ids
    → Extends d (record d {
      candidates = mark w.now failed ids d.candidates;
      evaluations = d.evaluations ++ failure_evaluations w n job_id why model ids;
    })
Extends-fail w n job_id why model ids d h =
    let marked : Db = record d { candidates = mark w.now failed ids d.candidates } in
    let first = Extends-mark w failed ids d in
    Extends-trans d marked _ first (
      Extends-add_evaluations (failure_evaluations w n job_id why model ids) marked (
        failure_evaluations-HasSubject w n job_id why model marked.candidates ids (
          All-map_imp (λ i. Owns i job_id d.candidates) (λ i. Owns i job_id marked.candidates) ids
            (λ i o. first.owns i job_id o) h)))

-- Sending leaves the tables.
pub db-enqueue_candidates :
    (w : World) (job_id : ℕ) (ids : List ℕ) (s : System)
    → (enqueue_candidates w job_id ids s).after.db ≡ s.db
db-enqueue_candidates w job_id ids s = ap (λ r. r.after.db) (enqueue_candidates_lem w job_id ids s)

-- From the tables before sending to those after what follows it.
pub Extends-sent :
    (w : World) (job_id : ℕ) (ids : List ℕ) (s : System) {d : Db}
    → Extends (enqueue_candidates w job_id ids s).after.db d
    → Extends s.db d
Extends-sent w job_id ids s {d} h =
    subst (λ t. Extends t d) (db-enqueue_candidates w job_id ids s) h
