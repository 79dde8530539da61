-- ===== src/Tests/Models.antt =====
-- Concrete runs of the clients of the language models.
use right_hire.Base.{
  ℕ, ◌+◌, ◌≡◌, refl, arith, none, some, List, [], ◌∷◌, ◌++◌, Text, text, ◌==◌, lower, strip,
  if◌then◌else◌,
}
use right_hire.Base.Int.{pos}
use right_hire.Base.Rational.{ratio}
use right_hire.Llm.{Try, returned, unavailable}
use right_hire.Llm.Limiter.{Clock, waited, wait}
use right_hire.Llm.Limiter.Window.{Advances, Calls, start, call}
use right_hire.Llm.Retry.{gave_up, Client, complete_json}
use right_hire.Llm.Retry.Decisive.{Decided, complete_json-Decided}
use right_hire.Llm.Local.{Vector, embed_from}
use right_hire.Llm.Local.Embedded
use right_hire.Llm.Local.Embedded.{embed_from-Outcome}
use right_hire.Llm.Reading.{Document, extract_text, get_provider, cerebras, resume_prompt}

-- Time passes between the readings.
abbrev clock_at : ℕ → Clock
clock_at now = record { now = now; woken = λ d. now + d + 1; stamped = λ t. t }

advances : (now : ℕ) → Advances (clock_at now)
advances now = record { wakes = λ d. omega arith; stamps = λ t. omega arith }

-- The first try is unavailable and asks for two seconds, the second returns.
abbrev client : Client ℕ
client = record {
  requests_per_minute = pos 30;
  max_retries = pos 3;
  retry_backoff_base = ratio 2 0;
  clock = λ n. clock_at (1000000 + n);
  once = λ n. if n == 1 then unavailable (some (ratio 2 0)) else returned 7;
}

complete_json-Decided_example : Decided client 1 3 (complete_json client [])
complete_json-Decided_example = complete_json-Decided client []

-- Two calls under a limit of one a minute: the second waits.
abbrev first_call : ℕ
first_call = (waited (clock_at 5) (pos 1) []).stamp

abbrev second_call : ℕ
second_call = (waited (clock_at 7) (pos 1) (wait (clock_at 5) (pos 1) [])).stamp

two_calls :
    Calls
      (pos 1)
      (([] ++ first_call ∷ []) ++ second_call ∷ [])
      (wait (clock_at 7) (pos 1) (wait (clock_at 5) (pos 1) []))
      second_call
unfolding wait waited
two_calls =
    call (clock_at 7) (call (clock_at 5) start (advances 5) (omega arith)) (advances 7)
      (omega arith)

second_call_waits : second_call ≡ 60000006
unfolding wait waited
second_call_waits = refl

-- Where the clock still shows the end of the window after the sleep, a call too many passes: the old
-- call is popped only once it is older than 60 seconds.
stopped_clock :
    wait (record { now = 60000000; woken = λ d. 60000000; stamped = λ t. t }) (pos 1) (0 ∷ [])
    ≡ 0 ∷ 60000000 ∷ []
unfolding wait
stopped_clock = refl

-- The first text is answered at once, the second never.
abbrev answers : ℕ → ℕ → Try Vector
answers i n = if i == 0 then returned (ratio 1 0 ∷ []) else unavailable none

abbrev texts : List Text
texts = text "python" ∷ text "sql" ∷ []

embed_from-Outcome_example : Embedded.Outcome answers 0 texts (embed_from answers 0 texts)
embed_from-Outcome_example = embed_from-Outcome answers 0 texts

embed_from_gives_up : embed_from answers 0 texts ≡ gave_up
unfolding embed_from
embed_from_gives_up = refl

backend_named : get_provider (text " Cerebras ") ≡ some cerebras
unfolding get_provider lower strip
backend_named = refl

prompt_filled :
    resume_prompt (text "Resume: {{RESUME_TEXT}}!") 3 (text "Python") ≡ text "Resume: Pyt!"
unfolding resume_prompt
prompt_filled = refl

-- A scanned page: the first two strategies find too little.
abbrev scanned : Document
scanned = record {
  suffix = text ".PDF";
  plain = [];
  fitz_pages = some (text " " ∷ []);
  plumber_pages = none;
  ocr_pages = some (text "Ten years" ∷ text "of Python" ∷ []);
}

extract_text-scanned :
    extract_text (some scanned) ≡ some (text "Ten years" ++ (10 ∷ text "of Python"))
unfolding extract_text lower strip
extract_text-scanned = refl
