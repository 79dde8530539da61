-- ===== src/Llm/Limiter.antt =====
-- app/llm/_openai_compatible.py: `_RateLimiter`. A time is a number of microseconds.
pub mod Window
use right_hire.Base.{
  ℕ, suc, ◌+◌, ◌-◌, Bool, true, false, List, [], ◌∷◌, ◌++◌, length, ltb, if◌then◌else◌,
}
use right_hire.Base.Int.{ℤ, pos, negsuc}

-- The 60.0 seconds of the window.
abbrev pub window : ℕ
window = 60000000

-- The readings of `time.monotonic()` during one `wait`: the first, the one after a sleep of the given
-- length (or of none), and the one that is stored, after the reading given.
pub record Clock : Type 0 where
  pub now : ℕ
  pub woken : ℕ → ℕ
  pub stamped : ℕ → ℕ

-- `max(limit, 1)`
abbrev pub at_least_one : ℤ → ℕ
at_least_one (pos (suc n)) = suc n
at_least_one _ = 1

-- `while self._calls and now - self._calls[0] > 60.0: self._calls.popleft()`
unfoldable pub pop_old : ℕ → List ℕ → List ℕ
pop_old now [] = []
pop_old now (c ∷ calls) = elim (ltb (c + window) now) [
  | true ↦ pop_old now calls
  | false ↦ c ∷ calls
]

-- `60.0 - (now - self._calls[0])`, of which only a positive value is slept.
abbrev pub pause : ℕ → List ℕ → ℕ
pause now [] = 0
pause now (c ∷ calls) = c + window - now

-- What stays of the deque, and the time that is appended.
pub record Waited : Type 0 where
  pub kept : List ℕ
  pub stamp : ℕ

abbrev throttled : Clock → List ℕ → Waited
throttled k calls =
    let t = k.woken (pause k.now calls) in record { kept = pop_old t calls; stamp = k.stamped t }

unfoldable pub waited : Clock → ℤ → List ℕ → Waited
unfolding pop_old
waited k limit calls =
    let kept = pop_old k.now calls in
    if ltb (length kept) (at_least_one limit)
    then record { kept = kept; stamp = k.stamped k.now }
    else throttled k kept

-- `wait`, over the deque of the calls, oldest first.
unfoldable pub wait : Clock → ℤ → List ℕ → List ℕ
unfolding waited
wait k limit calls = let r = waited k limit calls in r.kept ++ r.stamp ∷ []
