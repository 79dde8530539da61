-- ===== src/Llm/Retry/Decisive.antt =====
-- app/llm/_openai_compatible.py: which try decides `complete_json`.
use right_hire.Base.{
  ℕ, zero, suc, ◌+◌, ◌-◌, ◌≤◌, ◌<◌, ◌≡◌, ◌∙◌, ap, sym, inl, inr, Option, List, [], ◌∷◌, arith,
  length,
}
use native.Mathlib.Nat.{eq-or-lt_of_le}
use right_hire.Base.Rational.{Rational}
use right_hire.Llm.{Try, returned, unavailable, raised, got, lacks, broke, Try-cases}
use right_hire.Llm.Limiter.{at_least_one}
use right_hire.Llm.Retry.{End, value, gave_up, passed_on, Run, Client, tries_from, complete_json}

abbrev pub IsUnavailable : {A : Type 0} → Try A → Type 0
IsUnavailable {A} r = (after : Option Rational) × (r ≡ unavailable after)

-- The end that one try alone decides on.
abbrev pub Decides : {A : Type 0} → Try A → End A → Type 0
Decides r (value a) = r ≡ returned a
Decides r passed_on = r ≡ raised
Decides r gave_up = IsUnavailable r

-- The last try decides, and all before it were unavailable.
pub record Decided {A : Type 0} (p : Client A) (first last : ℕ) (r : Run A) : Type 0 where
  pub in_range : (first ≤ r.tries) × (r.tries ≤ last)
  pub before : (k : ℕ) → first ≤ k → k < r.tries → IsUnavailable (p.once k)
  pub decisive : Decides (p.once r.tries) r.end
  pub exhausted : r.end ≡ gave_up → r.tries ≡ last
  pub pauses : length r.slept + first ≡ r.tries

module _ {A : Type 0} (p : Client A) where
  Decided-at_once :
      (n last : ℕ) (e : End A) (calls : List ℕ)
      → n ≤ last
      → Decides (p.once n) e
      → (e ≡ gave_up → n ≡ last)
      → Decided p n last (record { end = e; slept = []; tries = n; calls = calls })
  Decided-at_once n last e calls h d x = record {
    in_range = (omega arith, h);
    before = λ k a b. absurd (omega arith);
    decisive = d;
    exhausted = x;
    pauses = omega arith;
  }

  Decided-later :
      (n last : ℕ) (after : Option Rational) (s : Rational) (r : Run A)
      → p.once n ≡ unavailable after
      → Decided p (suc n) last r
      → Decided p n last (record r { slept = s ∷ r.slept })
  Decided-later n last after s r h d = record {
    in_range = (omega (arith, d.in_range.0), d.in_range.1);
    before = λ k a b. earlier k a b;
    decisive = d.decisive;
    exhausted = d.exhausted;
    pauses = omega (arith, d.pauses);
  }
    where
      earlier : (k : ℕ) → n ≤ k → k < r.tries → IsUnavailable (p.once k)
      earlier k a b = elim (eq-or-lt_of_le a) [
        | inl e ↦ (after, ap p.once (sym e) ∙ h)
        | inr l ↦ d.before k l b
      ]

  tries_from-Decided :
      (left n last : ℕ) (calls : List ℕ)
      → n + left ≡ last
      → Decided p n last (tries_from p left n calls)
  unfolding tries_from
  tries_from-Decided zero n last calls h = elim (Try-cases (p.once n)) [
    | got a e ↦ rw (tries_from, e) (Decided-at_once n last (value a) _ (omega arith) e (λ x. cc))
    | lacks after e ↦
        rw (tries_from, e)
          (Decided-at_once n last gave_up _ (omega arith) (after, e) (λ x. omega arith))
    | broke e ↦ rw (tries_from, e) (Decided-at_once n last passed_on _ (omega arith) e (λ x. cc))
  ]
  tries_from-Decided (suc left) n last calls h = elim (Try-cases (p.once n)) [
    | got a e ↦ rw (tries_from, e) (Decided-at_once n last (value a) _ (omega arith) e (λ x. cc))
    | lacks after e ↦
        rw (tries_from, e)
          (Decided-later n last after _ _ e (tries_from-Decided left (suc n) last _ (omega arith)))
    | broke e ↦ rw (tries_from, e) (Decided-at_once n last passed_on _ (omega arith) e (λ x. cc))
  ]

-- The loop ends after at most as many tries as are set, or one where that is less. All tries before
-- the last were unavailable; the last returned the value, or raised, or was unavailable as well, and
-- then no try was left. There is one pause fewer than there are tries.
pub complete_json-Decided :
    {A : Type 0} (p : Client A) (calls : List ℕ)
    → Decided p 1 (at_least_one p.max_retries) (complete_json p calls)
unfolding complete_json
complete_json-Decided p calls =
    tries_from-Decided p (at_least_one p.max_retries - 1) 1 (at_least_one p.max_retries) calls
      (ground arith)
