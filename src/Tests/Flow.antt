-- ===== src/Tests/Flow.antt =====
-- A concrete run of several steps.
use right_hire.Base.{refl, [], arith}
use right_hire.Config.{default_settings}
use right_hire.Store.{System}
use right_hire.Candidates.Batch.{ingest_candidates}
use right_hire.Candidates.Cancel.{cancel_pending_candidates}
use right_hire.Linked.Reach.{Reachable, fresh, then_step, uploads, cancels}
use right_hire.Base.{◌≡◌, none, some}
use right_hire.Base.Rational.{
  is_nonzero, ltb_ℚ, leb_ℚ, divide, clamp_unit, nearest, ◌+ℚ◌, ◌*ℚ◌, round_4,
}
use right_hire.Store.{Candidate, Job, failed}
use right_hire.Pipeline.Filters.{apply_filters, has_skill}
use right_hire.Pipeline.Match.{match_candidate}
use right_hire.Pipeline.Score.{aggregate_score}
use right_hire.Worker.{WorkerState, Services, done}
use right_hire.Worker.Process.{evaluate_text}
use right_hire.Worker.Process.Cache.{Repeats, evaluate_text-Repeats}
use right_hire.Base.{Option, Text, ◌∷◌, text}
use right_hire.Schemas.{JobCreate}
use right_hire.Store.{parse_job_description}
use right_hire.Jobs.{find_job, create_job}
use right_hire.Schemas.{ParsedJd}
use right_hire.Worker.Description.{HasDescription, run_description, create_job-described}
use right_hire.Lifecycle.{Kind, Moves, board}
use right_hire.Lifecycle.Uploads.{AreNew}
use right_hire.Lifecycle.Requests.{perform}
use right_hire.Lifecycle.Requests
use right_hire.Lifecycle.Refined.{perform-Moves}
use right_hire.Tests.{
  ids-Distinct, provider, jd, world, later, recruiter, system, readers, sheet, applicant, opening,
  long_text, services, at_work,
}

abbrev blank : System
blank = record system { db = record system.db { candidates = [] } }

-- A sheet is uploaded, and what is pending is cancelled.
abbrev uploaded : System
uploaded = (ingest_candidates world default_settings readers 7 sheet recruiter blank).1

abbrev cancelled_after : System
cancelled_after = (cancel_pending_candidates world 7 recruiter uploaded).1

cancelled-Reachable : Reachable cancelled_after
cancelled-Reachable =
    then_step uploaded cancelled_after
      (then_step blank uploaded (fresh blank refl refl)
        (uploads world default_settings readers 7 sheet recruiter))
      (cancels world 7 recruiter)

abbrev ada : Candidate
ada = applicant 11 failed (some long_text)

abbrev judged : WorkerState
judged = (evaluate_text world default_settings services ada opening long_text at_work).1

ada_judged :
    (evaluate_text world default_settings services ada opening long_text at_work).0 ≡ done tt
unfolding evaluate_text apply_filters is_nonzero ltb_ℚ leb_ℚ has_skill aggregate_score divide
    clamp_unit nearest match_candidate ◌+ℚ◌ ◌*ℚ◌ round_4
ada_judged = refl

-- The second time there is no provider.
abbrev without_provider : Services
without_provider = record services { provider = none }

evaluate_text-Repeats_example :
    ((evaluate_text later default_settings without_provider ada opening long_text judged).0
      ≡ done tt)
    × Repeats at_work judged judged
        (evaluate_text later default_settings without_provider ada opening long_text judged).1
evaluate_text-Repeats_example =
    evaluate_text-Repeats world later default_settings default_settings services without_provider
      ada ada opening opening long_text long_text at_work judged refl ada_judged refl

abbrev posted : JobCreate
posted = record {
  title = text "Data engineer";
  jd_raw = text "We look for a data engineer";
  weights = none;
  thresholds = none;
  jd_parsed_override = none;
}

abbrev down : Text → Option ParsedJd
down t = none

-- The second run of the task has no provider.
create_job-described_example :
    ((job : Job) × (find_job 1000
          (run_description default_settings
            (some provider)
            1000
            (create_job world down posted recruiter system).1).jobs
        ≡ some job)
      × HasDescription 1000 posted recruiter jd job)
    × (run_description default_settings none 1000 (
          run_description default_settings
            (some provider)
            1000
            (create_job world down posted recruiter system).1)
        ≡ run_description default_settings
            (some provider)
            1000
            (create_job world down posted recruiter system).1)
    × ((create_job world down posted recruiter system).1.queue ≡ parse_job_description 1000 ∷ [])
create_job-described_example =
    create_job-described world down posted recruiter system default_settings default_settings
      provider none jd refl refl refl refl

new_ids : AreNew world system
new_ids n h = ground arith

perform-Moves_example : Moves Kind.upload (board system.candidates) (
    board
      (perform world
        (Requests.uploads default_settings readers 7 sheet recruiter)
        system).candidates)
perform-Moves_example =
    perform-Moves world (Requests.uploads default_settings readers 7 sheet recruiter) system
      ids-Distinct new_ids
