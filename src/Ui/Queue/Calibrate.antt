-- ===== src/Ui/Queue/Calibrate.antt =====
-- ui/right_hire_ui/states/results_state.py: the threshold sliders and the histogram, with `bucket_tone`
-- of ui/right_hire_ui/formatting.py. What float() makes of a text is an argument, a `ValueError` none.
pub mod Apart
use right_hire.Base.{
  ℕ, zero, suc, ◌*◌, Option, none, some, List, [], ◌∷◌, ◌++◌, map, Text, text, max, starts_with,
  drop, Dict, lookup_or, if◌then◌else◌,
}
use right_hire.Base.Rational.{Rational, ratio, leb_ℚ, ltb_ℚ, ◌+ℚ◌, ◌-ℚ◌, ◌*ℚ◌, min_ℚ, round_at}
use right_hire.Results.Stats.{BatchStats}
use right_hire.Ui.{Answer, answered, refused, Notice, success, failure, event, Event}
use right_hire.Ui.Queue.{ResultsState}

-- `round(a, 2)`
abbrev pub round_2 : Rational → Rational
round_2 a = round_at 99 a

-- `max(0.0, a)`: the first of equals.
abbrev pub at_least_0 : Rational → Rational
at_least_0 a = if ltb_ℚ (ratio 0 0) a then a else ratio 0 0

-- `round(self.draft_fit_threshold - _MIN_THRESHOLD_GAP, 2)`
abbrev pub ceiling : Rational → Rational
ceiling fit = round_2 (fit -ℚ ratio 5 99)

unfoldable pub set_draft_fit_threshold : Rational → ResultsState → ResultsState
unfolding round_at ◌-ℚ◌ ltb_ℚ
set_draft_fit_threshold value st =
    let fit = round_2 value in
    record st {
      draft_fit_threshold = fit;
      draft_maybe_threshold =
          if ltb_ℚ (ceiling fit) st.draft_maybe_threshold
          then at_least_0 (ceiling fit)
          else st.draft_maybe_threshold;
    }

unfoldable pub set_draft_maybe_threshold : Rational → ResultsState → ResultsState
unfolding round_at ◌-ℚ◌ ltb_ℚ
set_draft_maybe_threshold value st = record st {
  draft_maybe_threshold = at_least_0 (min_ℚ (round_2 value) (ceiling st.draft_fit_threshold));
}

-- `load_stats`
abbrev shown_stats : Answer BatchStats → ResultsState → ResultsState × List Notice
shown_stats (answered stats) st = (
  record st {
    batch_stats = some stats;
    draft_fit_threshold = lookup_or (text "fit") (ratio 70 99) stats.current_thresholds;
    draft_maybe_threshold = lookup_or (text "maybe") (ratio 40 99) stats.current_thresholds;
  },
  [],
)
shown_stats (refused e) st = (st, failure (text "Couldn't load score distribution: " ++ e) ∷ [])

unfoldable pub load_stats : (ℕ → Answer BatchStats) → ResultsState → ResultsState × List Notice
load_stats get_job_stats st = elim st.selected_job_id [
  | none ↦ (st, [])
  | some job_id ↦ shown_stats (get_job_stats job_id) st
]

-- `recalibrate_thresholds`, over what the PATCH answers to the thresholds for fit and maybe.
abbrev recalibrated : Answer (Unit {0}) → List Notice
recalibrated (answered _) = success (text "Thresholds updated.") ∷ event Event.load_stats ∷ []
recalibrated (refused e) = failure (text "Recalibration failed: " ++ e) ∷ []

unfoldable pub recalibrate_thresholds :
    (ℕ → (fit maybe : Rational) → Answer (Unit {0})) → ResultsState → List Notice
unfolding leb_ℚ
recalibrate_thresholds update_job_thresholds st = elim st.selected_job_id [
  | none ↦ []
  | some job_id ↦
      if leb_ℚ st.draft_fit_threshold st.draft_maybe_threshold
      then failure (text "Maybe threshold must be lower than Fit threshold.") ∷ []
      else recalibrated
          (update_job_thresholds job_id st.draft_fit_threshold st.draft_maybe_threshold)
]

-- `bucket.partition("–")`, the part before and the part after.
abbrev partition : Text → Text × Text
partition [] = ([], [])
partition (c ∷ t) =
    let rest = partition t in
    if starts_with (c ∷ t) (text "–") then ([], drop 1 (c ∷ t)) else (c ∷ rest.0, rest.1)

abbrev tone_at : (fit maybe : Rational) → Option Rational → Option Rational → Text
tone_at fit maybe (some low) (some high) =
    let mid = round_at 999999 ((low +ℚ high) *ℚ ratio 1 1) in
    if leb_ℚ fit mid then text "fit" else if leb_ℚ maybe mid then text "maybe" else text "reject"
tone_at fit maybe _ _ = text "reject"

unfoldable pub bucket_tone : (Text → Option Rational) → Text → (fit maybe : Rational) → Text
unfolding round_at leb_ℚ ◌+ℚ◌ ◌*ℚ◌
bucket_tone parse_float bucket fit maybe =
    tone_at fit maybe (parse_float (partition bucket).0) (parse_float (partition bucket).1)

pub record Bar : Type 0 where
  pub bucket : Text
  pub count : ℕ
  pub height_pct : Rational
  pub tone : Text

abbrev histogram : ResultsState → Dict ℕ
histogram st = elim st.batch_stats [ none ↦ [] | some stats ↦ stats.histogram ]

abbrev top_count : Dict ℕ → ℕ
top_count [] = 0
top_count ((_, n) ∷ buckets) = max n (top_count buckets)

abbrev height : ℕ → ℕ → Rational
height n zero = ratio 0 0
height n (suc top) = ratio (n * 100) top

-- `histogram_bars`
unfoldable pub histogram_bars : (Text → Option Rational) → ResultsState → List Bar
unfolding bucket_tone
histogram_bars parse_float st =
    let buckets = histogram st in
    map
      (λ b. record {
        bucket = b.0;
        count = b.1;
        height_pct = height b.1 (top_count buckets);
        tone = bucket_tone parse_float b.0 st.draft_fit_threshold st.draft_maybe_threshold;
      })
      buckets
