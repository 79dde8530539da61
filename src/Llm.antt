-- ===== src/Llm.antt =====
-- app/llm: the clients of the language models. What an endpoint answers is an argument.
pub mod Limiter
pub mod Retry
pub mod Local
pub mod Reading
use right_hire.Base.{ℕ, zero, suc, ◌≡◌, refl, Option}
use right_hire.Base.Rational.{Rational, ratio, ◌*ℚ◌}

-- What one try comes to: a value; an `LLMUnavailableError`, or for Ollama one of the exceptions that
-- the loop catches, with the seconds of a Retry-After header; or an exception that the loop passes on.
pub data Try (A : Type 0) : Type 0 where
  returned : A → Try A
  unavailable : Option Rational → Try A
  raised : Try A

-- `base ** attempt`
unfoldable pub power : Rational → ℕ → Rational
unfolding ◌*ℚ◌
power base zero = ratio 1 0
power base (suc n) = power base n *ℚ base

pub data TryCases {A : Type 0} (r : Try A) : Type 0 where
  got : (a : A) → r ≡ returned a → TryCases r
  lacks : (after : Option Rational) → r ≡ unavailable after → TryCases r
  broke : r ≡ raised → TryCases r

pub Try-cases : {A : Type 0} (r : Try A) → TryCases r
Try-cases (returned a) = got a refl
Try-cases (unavailable after) = lacks after refl
Try-cases raised = broke refl
