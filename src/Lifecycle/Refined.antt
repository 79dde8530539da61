-- ===== src/Lifecycle/Refined.antt =====
-- Every request, task and sweep is a step of the machine of statuses.
use right_hire.Base.{map, Distinct}
use right_hire.Store.{System, World}
use right_hire.Lifecycle.{Moves, board}
use right_hire.Lifecycle.Requests.{
  Request, perform, kind_of, creates, changes_job, drops_job, uploads, retries, retries_all,
  cancels, attaches, edits, drops, drops_all, overrides, drops_evaluation, works, sweeps,
}
use right_hire.Lifecycle.Routes.{Living-retry_candidate}
use right_hire.Lifecycle.Changes.{
  Living-update_candidate, Living-upload_candidate_resume, Living-delete_all_candidates,
  Living-delete_candidate, Living-delete_job, Living-create_job, Living-update_job,
  Living-update_evaluation, Living-delete_evaluation,
}
use right_hire.Lifecycle.Batches.{Living-cancel_pending_candidates, Living-retry_failed_candidates}
use right_hire.Lifecycle.Uploads.{AreNew, Living-ingest_candidates}
use right_hire.Lifecycle.Tasks.{process_candidate-Moves, sweep_stale_candidates-Moves}

-- Where candidate ids are distinct and those still to be drawn are new, every request, task and sweep
-- is, on the board of statuses, a step of its kind: each candidate keeps its status, or makes one of
-- the moves of the kind. So only an upload adds one, pending or failed; only a retry turns a failed
-- one pending, only a cancellation a pending one failed, only an uploaded resume any one pending, only
-- a task any one done or failed, and only a sweep a pending or processing one pending or failed; only
-- a deletion removes one.
pub perform-Moves :
    (w : World) (r : Request) (s : System)
    → Distinct (map (λ c. c.id) s.candidates)
    → AreNew w s
    → Moves (kind_of r) (board s.candidates) (board (perform w r s).candidates)
unfolding perform
perform-Moves w (creates parse_jd body user) s d new =
    (Living-create_job s w parse_jd body user).run
perform-Moves w (changes_job job_id body user) s d new = (Living-update_job s job_id body user).run
perform-Moves w (drops_job job_id user) s d new = (Living-delete_job s d job_id user).run
perform-Moves w (uploads conf rd job_id file user) s d new =
    (Living-ingest_candidates w rd job_id user s new conf file).run
perform-Moves w (retries job_id i user) s d new = (Living-retry_candidate w job_id i user s).run
perform-Moves w (retries_all job_id user) s d new =
    (Living-retry_failed_candidates w job_id s d user).run
perform-Moves w (cancels job_id user) s d new =
    (Living-cancel_pending_candidates w job_id s d user).run
perform-Moves w (attaches conf ps job_id i file user) s d new =
    (Living-upload_candidate_resume w conf ps job_id i file user s).run
perform-Moves w (edits job_id i body user) s d new =
    (Living-update_candidate w job_id i body user s).run
perform-Moves w (drops st job_id i user) s d new =
    (Living-delete_candidate s d st job_id i user).run
perform-Moves w (drops_all st job_id user) s d new =
    (Living-delete_all_candidates s d st job_id user).run
perform-Moves w (overrides shown eval_id body user) s d new =
    (Living-update_evaluation s shown eval_id body user).run
perform-Moves w (drops_evaluation eval_id user) s d new =
    (Living-delete_evaluation s eval_id user).run
perform-Moves w (works conf sv i job_id verdicts) s d new =
    process_candidate-Moves w conf sv i job_id (record { system = s; verdicts = verdicts })
perform-Moves w (sweeps conf) s d new = sweep_stale_candidates-Moves w conf s d
