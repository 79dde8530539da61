-- ===== src/Llm/Retry.antt =====
-- app/llm/_openai_compatible.py: `complete_json` with its tries, and the pauses between them.
pub mod Decisive
use right_hire.Base.{
  ℕ, zero, suc, ◌+◌, ◌-◌, Bool, true, false, Option, none, some, List, [], ◌∷◌, ltb, leb,
  if◌then◌else◌,
}
use right_hire.Base.Int.{ℤ, pos, negsuc}
use right_hire.Base.Rational.{Rational, is_nonzero}
use right_hire.Llm.{Try, returned, unavailable, raised, power}
use right_hire.Llm.Limiter.{Clock, at_least_one, wait}

-- How the loop ends, the seconds that it slept, how many tries it made, and the limiter's deque.
pub data End (A : Type 0) : Type 0 where
  value : A → End A
  gave_up passed_on : End A

pub record Run (A : Type 0) : Type 0 where
  pub end : End A
  pub slept : List Rational
  pub tries : ℕ
  pub calls : List ℕ

-- A client: its settings, the clock at each try, and what the endpoint answers to each try.
pub record Client (A : Type 0) : Type 0 where
  pub requests_per_minute : ℤ
  pub max_retries : ℤ
  pub retry_backoff_base : Rational
  pub clock : ℕ → Clock
  pub once : ℕ → Try A

-- `retry_after or self.retry_backoff_base**attempt`
abbrev pub delay : Rational → ℕ → Option Rational → Rational
delay base attempt none = power base attempt
delay base attempt (some s) = if is_nonzero s then s else power base attempt

module _ {A : Type 0} (p : Client A) where
  abbrev ended : End A → ℕ → List ℕ → Run A
  ended e tries calls = record { end = e; slept = []; tries = tries; calls = calls }

  abbrev after_pause : Rational → Run A → Run A
  after_pause s r = record r { slept = s ∷ r.slept }

  -- The loop from try number `attempt` on, where `left` more tries may follow that one.
  unfoldable pub tries_from : (left attempt : ℕ) → List ℕ → Run A
  tries_from zero attempt calls =
      let calls' = wait (p.clock attempt) p.requests_per_minute calls in
      elim (p.once attempt) [
        | returned a ↦ ended (value a) attempt calls'
        | unavailable after ↦ ended gave_up attempt calls'
        | raised ↦ ended passed_on attempt calls'
      ]
  tries_from (suc left) attempt calls =
      let calls' = wait (p.clock attempt) p.requests_per_minute calls in
      elim (p.once attempt) [
        | returned a ↦ ended (value a) attempt calls'
        | unavailable after ↦
            after_pause (delay p.retry_backoff_base attempt after)
              (tries_from left (suc attempt) calls')
        | raised ↦ ended passed_on attempt calls'
      ]

  -- `complete_json`
  unfoldable pub complete_json : List ℕ → Run A
  unfolding tries_from
  complete_json calls = tries_from (at_least_one p.max_retries - 1) 1 calls
