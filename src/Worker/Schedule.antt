-- ===== src/Worker/Schedule.antt =====
-- app/workers/tasks.py: `ensure_stale_sweep_scheduled` and `_ensure_watchdog_started`, over the
-- registry of scheduled jobs.
use right_hire.Base.{
  ℕ, ◌*◌, ◌≤◌, Bool, true, false, List, [], ◌∷◌, ◌++◌, Text, text, text_eq, any, count_where,
  if◌then◌else◌,
}
use right_hire.Config.{Settings}

-- An entry of `scheduled_job_registry`.
pub record Scheduled : Type 0 where
  pub job_id : Text
  pub delay_seconds : ℕ
  pub repeat_times : ℕ
  pub repeat_interval : ℕ

-- `_SWEEP_JOB_ID`
abbrev pub sweep_job_id : Text
sweep_job_id = text "stale-candidate-sweep"

abbrev pub is_sweep : Scheduled → Bool
is_sweep j = text_eq j.job_id sweep_job_id

abbrev pub sweep_job : Settings → Scheduled
sweep_job conf =
    let seconds = conf.stale_sweep_interval_minutes * 60 in
    record {
      job_id = sweep_job_id;
      delay_seconds = seconds;
      repeat_times = 10000000;
      repeat_interval = seconds;
    }

-- `ensure_stale_sweep_scheduled`, where Redis answers.
unfoldable pub ensure_stale_sweep_scheduled : Settings → List Scheduled → List Scheduled
ensure_stale_sweep_scheduled conf jobs =
    if any is_sweep jobs then jobs else jobs ++ sweep_job conf ∷ []

-- The process's flag, and the registry.
pub record Watchdog : Type 0 where
  pub started : Bool
  pub scheduled : List Scheduled

-- `_ensure_watchdog_started`; an exception of Redis is caught.
unfoldable pub ensure_watchdog_started : Settings → (redis_up : Bool) → Watchdog → Watchdog
unfolding ensure_stale_sweep_scheduled
ensure_watchdog_started conf redis_up d = elim d.started [
  | true ↦ d
  | false ↦ record d {
    started = true;
    scheduled = if redis_up then ensure_stale_sweep_scheduled conf d.scheduled else d.scheduled;
  }
]

-- What happens to a process and the registry: a new process starts, with its flag unset; it takes its
-- first or a later task, while Redis answers or not; or RQ changes the registry, as where an entry comes
-- due and is taken off, or is put back for the next time. The registry is a sorted set of ids, so RQ
-- never has an id in it twice.
pub data Event : Type 0 where
  forks : Event
  takes_task : (redis_up : Bool) → Event
  rq_changes : (jobs : List Scheduled) → count_where is_sweep jobs ≤ 1 → Event

unfoldable pub after_event : Settings → Event → Watchdog → Watchdog
unfolding ensure_watchdog_started
after_event conf forks d = record d { started = false }
after_event conf (takes_task redis_up) d = ensure_watchdog_started conf redis_up d
after_event conf (rq_changes jobs once) d = record d { scheduled = jobs }

unfoldable pub after_events : Settings → List Event → Watchdog → Watchdog
unfolding after_event
after_events conf [] d = d
after_events conf (e ∷ es) d = after_events conf es (after_event conf e d)
