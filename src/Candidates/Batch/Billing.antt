-- ===== src/Candidates/Batch/Billing.antt =====
-- app/api/ingest.py: credits, rows and messages after `ingest_candidates`.
use right_hire.Base.{
  ℕ, suc, ◌+◌, ◌≡◌, refl, ap, ◌∙◌, ◌⊎◌, inl, inr, Bool, true, false, not, ◌&&◌, List, [], ◌∷◌, ◌++◌,
  map, length, arith, is_empty, is_empty→nil, Bool-cases, and-true_left, sym, length-append,
  length-map, append-nil, if◌then◌else◌,
}
use right_hire.Base.Int.{ℤ, pos, ◌-ℤ◌, ◌≤ℤ◌, ltb_ℤ, int_laws}
use right_hire.Config.{Settings}
use right_hire.Store.{User, Job, Candidate, failed, System, World}
use right_hire.Http.{Result, Handler, ok, err, raise_if, ◌>>=◌, ◌>>◌}
use right_hire.Http.Reads.{Reads, Reads-raise_if, raised, went_on, ran, passed, reads_rules}
use right_hire.Queue.Laws.{
  accepted, refused, sent_to, after_sending, enqueue_candidates_lem, length-accepted-refused,
}
use right_hire.Jobs.{get_owned_job, Reads-get_owned_job}
use right_hire.Sheet.{Row}
use right_hire.Candidates.{length-mark, set_credits}
use right_hire.Candidates.Batch.{
  Readers, Upload, read_sheet, new_candidates, add_candidates, record_failed, charge,
  BulkIngestResponse, store_batch, ingest_candidates,
}

module _ (w : World) (rd : Readers) (job_id : ℕ) (user : User) (rows : List Row) (s : System) where
  abbrev pub added : List Candidate
  added = new_candidates w rd job_id s.drawn rows

  abbrev pub ids : List ℕ
  ids = map (λ c. c.id) added

  abbrev pub queued_ids : List ℕ
  queued_ids = accepted w s.attempts ids

  abbrev pub failed_ids : List ℕ
  failed_ids = refused w s.attempts ids

  abbrev pub response : BulkIngestResponse
  response = record {
    job_id = job_id;
    queued_count = length queued_ids;
    candidate_ids = queued_ids;
    failed_count = length failed_ids;
  }

  abbrev pub final : System
  final =
      charge user (length queued_ids)
        (record_failed w job_id failed_ids (after_sending w job_id ids (add_candidates added s)))

  pub store_batch_lem :
      store_batch w rd job_id user rows s
      ≡ ((if is_empty queued_ids && not (is_empty failed_ids) then err 503 else ok response), final)
  unfolding store_batch
  store_batch_lem = rw (enqueue_candidates_lem w job_id ids (add_candidates added s))

-- Reading the upload changes nothing.
pub Reads-read_sheet :
    (conf : Settings) (rd : Readers) (file : Upload) → Reads (read_sheet conf rd file)
unfolding read_sheet
Reads-read_sheet conf rd file = search reads_rules depth 14

pub length-new_candidates :
    (w : World) (rd : Readers) (job_id n : ℕ) (rows : List Row)
    → length (new_candidates w rd job_id n rows) ≡ length rows
unfolding new_candidates
length-new_candidates w rd job_id n [] = refl
length-new_candidates w rd job_id n (row ∷ rows) =
    ap suc (length-new_candidates w rd job_id (suc n) rows)

-- A run that reached the insertion of the rows, and what it was given there.
record Reached (w : World) (conf : Settings) (rd : Readers) (job_id : ℕ) (file : Upload)
    (user : User) (s : System) (out : Result BulkIngestResponse × System) : Type 0 where
  rows : List Row
  read : (read_sheet conf rd file s).0 ≡ ok rows
  covered : pos (length rows) ≤ℤ user.credits
  stored : out ≡ store_batch w rd job_id user rows s

covers : (a : ℤ) (n : ℕ) → ltb_ℤ a (pos n) ≡ false → pos n ≤ℤ a
covers a n h = ground arith

-- The handler from its second and its third check on.
module _ (w : World) (conf : Settings) (rd : Readers) (job_id : ℕ) (file : Upload)
    (user : User) where
  abbrev short : List Row → Bool
  short rows = ltb_ℤ user.credits (pos (length rows))

  abbrev pay : List Row → Handler BulkIngestResponse
  pay rows = raise_if (short rows) 402 >> store_batch w rd job_id user rows

  abbrev open_job : Job → Handler BulkIngestResponse
  open_job job = raise_if job.jd_parse_pending 409 >> (read_sheet conf rd file >>= pay)

  -- An upload is refused and changes nothing, or it reaches the insertion with enough credits.
  ingest_cases :
      (s : System)
      → Reached w conf rd job_id file user s (ingest_candidates w conf rd job_id file user s)
        ⊎ (e : ℕ) × (ingest_candidates w conf rd job_id file user s ≡ (err e, s))
  unfolding ingest_candidates
  ingest_cases s =
      elim (ran (get_owned_job job_id user) open_job s (Reads-get_owned_job job_id user)) [
        | raised e _ out ↦ inr (e, out)
        | went_on job _ owned ↦
            elim (ran (raise_if job.jd_parse_pending 409) (λ _. read_sheet conf rd file >>= pay) s
              (Reads-raise_if _ _)) [
                | raised e _ out ↦ inr (e, owned ∙ out)
                | went_on _ _ parsed ↦
                    elim (ran (read_sheet conf rd file) pay s (Reads-read_sheet conf rd file)) [
                      | raised e _ out ↦ inr (e, owned ∙ parsed ∙ out)
                      | went_on rows read out ↦
                          elim (ran (raise_if (short rows) 402)
                            (λ _. store_batch w rd job_id user rows) s (Reads-raise_if _ _)) [
                              | raised e _ refused ↦ inr (e, owned ∙ parsed ∙ out ∙ refused)
                              | went_on _ paid stored ↦ inl (record {
                                rows = rows;
                                read = read;
                                covered =
                                    covers user.credits (length rows)
                                      (passed (short rows) 402 s paid);
                                stored = owned ∙ parsed ∙ out ∙ stored;
                              })
                            ]
                    ]
              ]
      ]

-- What an upload that answered with `r` has done.
pub record Ingested (user : User) (job_id : ℕ) (s : System) (r : BulkIngestResponse) (s' : System)
    : Type 0 where
  -- A credit was there for each row, and one was taken for each candidate that was queued.
  pub covered : pos (r.queued_count + r.failed_count) ≤ℤ user.credits
  pub charged : s'.users ≡ set_credits user.id (user.credits -ℤ pos r.queued_count) s.users
  -- Every row is a candidate, queued or failed.
  pub inserted : length s'.candidates ≡ length s.candidates + (r.queued_count + r.failed_count)
  -- The queue has the candidates of the answer and nothing else that is new.
  pub listed : length r.candidate_ids ≡ r.queued_count
  pub sent : s'.queue ≡ s.queue ++ sent_to job_id r.candidate_ids

length-final_candidates :
    (w : World) (rd : Readers) (job_id : ℕ) (user : User) (rows : List Row) (s : System)
    → length (final w rd job_id user rows s).candidates ≡ length s.candidates + length rows
length-final_candidates w rd job_id user rows s =
    length-mark w.now failed (failed_ids w rd job_id user rows s)
      (s.candidates ++ added w rd job_id user rows s)
    ∙ length-append s.candidates (added w rd job_id user rows s)
    ∙ ap (λ (n : ℕ). length s.candidates + n) (length-new_candidates w rd job_id s.drawn rows)

counts :
    (w : World) (rd : Readers) (job_id : ℕ) (user : User) (rows : List Row) (s : System)
    → length (queued_ids w rd job_id user rows s) + length (failed_ids w rd job_id user rows s)
      ≡ length rows
counts w rd job_id user rows s =
    length-accepted-refused w s.attempts (ids w rd job_id user rows s)
    ∙ length-map _ (added w rd job_id user rows s)
    ∙ length-new_candidates w rd job_id s.drawn rows

-- What a 503 has done: the user has the credits as before, and nothing waits in the queue.
pub record Unqueued (user : User) (s s' : System) : Type 0 where
  pub uncharged : s'.users ≡ set_credits user.id user.credits s.users
  pub unsent : s'.queue ≡ s.queue

-- What a call has done, by how it ended.
abbrev pub Outcome : User → ℕ → System → Result BulkIngestResponse × System → Type 0
Outcome user job_id s (ok r, s') = Ingested user job_id s r s'
Outcome user job_id s (err e, s') = (s' ≡ s) ⊎ (e ≡ 503) × Unqueued user s s'

sub_zero : (a : ℤ) → a -ℤ pos 0 ≡ a
sub_zero a = omega int_laws

module _ (w : World) (rd : Readers) (job_id : ℕ) (user : User) (rows : List Row) (s : System) where
  final-Ingested :
      pos (length rows) ≤ℤ user.credits
      → Ingested user job_id s (response w rd job_id user rows s) (final w rd job_id user rows s)
  final-Ingested c = record {
    covered = rw (counts w rd job_id user rows s) c;
    charged = refl;
    inserted =
        length-final_candidates w rd job_id user rows s
        ∙ ap (λ (n : ℕ). length s.candidates + n) (sym (counts w rd job_id user rows s));
    listed = refl;
    sent = refl;
  }

  final-Unqueued :
      is_empty (queued_ids w rd job_id user rows s) ≡ true
      → Unqueued user s (final w rd job_id user rows s)
  final-Unqueued h =
      let unqueued = is_empty→nil (queued_ids w rd job_id user rows s) h in
      record {
        uncharged =
            ap (λ l. set_credits user.id (user.credits -ℤ pos (length l)) s.users) unqueued
            ∙ ap (λ c. set_credits user.id c s.users) (sub_zero user.credits);
        unsent = ap (λ l. s.queue ++ sent_to job_id l) unqueued ∙ append-nil s.queue;
      }

  store_batch-Outcome :
      pos (length rows) ≤ℤ user.credits
      → Outcome user job_id s (store_batch w rd job_id user rows s)
  store_batch-Outcome c =
      let none_sent = is_empty (queued_ids w rd job_id user rows s) in
      let some_failed = not (is_empty (failed_ids w rd job_id user rows s)) in
      rw (store_batch_lem w rd job_id user rows s) (elim (Bool-cases (none_sent && some_failed)) [
        | inl t ↦ rw t (inr (refl, final-Unqueued (and-true_left none_sent some_failed t)))
        | inr t ↦ rw t (final-Ingested c)
      ])

-- An upload is refused and changes nothing; or it answers 503, and no credit is taken and nothing
-- queued; or it answers with the ids that were queued, was covered by the credits, has
-- stored each row, and takes a credit for each queued candidate and for no other.
pub ingest_candidates-Outcome :
    (w : World) (conf : Settings) (rd : Readers) (job_id : ℕ) (file : Upload) (user : User)
    (s : System)
    → Outcome user job_id s (ingest_candidates w conf rd job_id file user s)
ingest_candidates-Outcome w conf rd job_id file user s =
    elim (ingest_cases w conf rd job_id file user s) [
      | inl reached ↦
          rw reached.stored (store_batch-Outcome w rd job_id user reached.rows s reached.covered)
      | inr (e, refused) ↦ rw refused (inl refl)
    ]
