-- ===== src/Llm/Local.antt =====
-- app/llm/local.py: `complete_json` and `embed` of the Ollama client, and its health check.
pub mod Embedded
use right_hire.Base.{
  ℕ, zero, suc, Bool, true, false, not, ◌&&◌, Option, none, some, List, [], ◌∷◌, map, Text, text,
  text_eq, any, is_empty, if◌then◌else◌,
}
use right_hire.Base.Rational.{Rational, ratio}
use right_hire.Llm.{Try, returned, unavailable, raised, power}
use right_hire.Llm.Retry.{End, value, gave_up, passed_on}

-- `_MAX_RETRIES` is three: two tries may follow the first. `_BACKOFF_BASE`
abbrev pub max_retries : ℕ
max_retries = 3

abbrev backoff_base : Rational
backoff_base = ratio 15 9

-- How a loop of tries ends, and the seconds that it slept.
pub record Loop (A : Type 0) : Type 0 where
  pub end : End A
  pub slept : List Rational

module _ {A : Type 0} where
  abbrev ended : End A → Loop A
  ended e = record { end = e; slept = [] }

  abbrev pub after_pause : Rational → Loop A → Loop A
  after_pause s r = record r { slept = s ∷ r.slept }

  -- The loop from a try on, where `left` more tries may follow.
  unfoldable pub loop_from : (ℕ → Try A) → (left attempt : ℕ) → Loop A
  loop_from once zero attempt = elim (once attempt) [
    | returned a ↦ ended (value a)
    | unavailable _ ↦ ended gave_up
    | raised ↦ ended passed_on
  ]
  loop_from once (suc left) attempt = elim (once attempt) [
    | returned a ↦ ended (value a)
    | unavailable _ ↦ after_pause (power backoff_base attempt) (loop_from once left (suc attempt))
    | raised ↦ ended passed_on
  ]

  -- `LocalProvider.complete_json`
  unfoldable pub local_complete_json : (ℕ → Try A) → Loop A
  unfolding loop_from
  local_complete_json once = loop_from once 2 1

abbrev pub Vector : Type 0
Vector = List Rational

abbrev pub cons_value : Vector → End (List Vector) → End (List Vector)
cons_value v (value vs) = value (v ∷ vs)
cons_value v gave_up = gave_up
cons_value v passed_on = passed_on

-- `LocalProvider.embed`, over what the endpoint answers to each try for each text: the loop for a
-- text ends in its vector, or the call fails.
unfoldable pub embed_from : (ℕ → ℕ → Try Vector) → ℕ → List Text → End (List Vector)
unfolding loop_from
embed_from once i [] = value []
embed_from once i (t ∷ texts) = elim (loop_from (once i) 2 1).end [
  | value v ↦ cons_value v (embed_from once (suc i) texts)
  | gave_up ↦ gave_up
  | passed_on ↦ passed_on
]

-- `name.split(":")[0]`
abbrev before_colon : Text → Text
before_colon [] = []
before_colon (c ∷ t) = if text_eq (c ∷ []) (text ":") then [] else c ∷ before_colon t

-- `LocalProvider.health_check`, over the names that Ollama lists: whether it raises.
unfoldable pub is_not_pulled : Text → List Text → Bool
is_not_pulled model available =
    not (is_empty available)
    && not (any (λ name. text_eq (before_colon name) (before_colon model)) available)
