-- ===== src/Results/Messages/Explained.antt =====
-- How app/api/results.py explains what app/workers/tasks.py and app/api/ingest.py store.
use right_hire.Base.{
  ℕ, ◌<◌, ◌≡◌, refl, Bool, true, some, text_eq, text_eq_iff, holds_below, holds_below-true,
}
use right_hire.Store.{no_resume, too_short, queue_failed}
use right_hire.Results.Messages.{
  Details, message, friendly_error, too_short_advice, no_resume_advice, queue_advice,
}

abbrev says_too_short : Details → ℕ → Bool
says_too_short d n = text_eq (friendly_error (some (message d (too_short n)))) too_short_advice

says_too_short_below : (d : Details) → holds_below 100 (says_too_short d) ≡ true
unfolding friendly_error message
says_too_short_below d = refl

-- The messages that the worker and the upload store are recognised: a candidate without a resume, a
-- text of fewer than 100 characters and a candidate that was never queued each get their own advice.
pub friendly_error-message :
    (d : Details) (n : ℕ)
    → n < 100
    → (friendly_error (some (message d no_resume)) ≡ no_resume_advice)
      × (friendly_error (some (message d (too_short n))) ≡ too_short_advice)
      × (friendly_error (some (message d queue_failed)) ≡ queue_advice)
unfolding friendly_error message
friendly_error-message d n h = (
  refl,
  (text_eq_iff (friendly_error (some (message d (too_short n)))) too_short_advice).0
      (holds_below-true 100 (says_too_short d) n (says_too_short_below d) h),
  refl,
)
