-- ===== src/Results/Card/Rank.antt =====
-- app/api/results.py: the rank and the percentile of a card, and the card of a candidate that was not
-- processed.
use right_hire.Base.{
  ℕ, suc, ◌*◌, ◌-◌, ◌≤◌, ◌≡◌, ◌≢◌, refl, true, false, inl, inr, Bool-cases, Option, none, some,
  List, [], ◌∷◌, Text, text, Dict, is_empty, strip, length, any, count_where, leb, arith,
}
use right_hire.Base.Rational.{Rational, ratio, ltb_ℚ, leb_ℚ, leb_ℚ_trans}
use right_hire.Base.Rational.Rounding.{round_at_bounds}
use right_hire.Schemas.{Verdict, fit, maybe, reject}
use right_hire.Store.{Evaluation, Failure}
use right_hire.Results.{verdict_text}
use right_hire.Results.Messages.{friendly_error, friendly_text}
use right_hire.Results.Card.{
  ReasoningCard, card_of, error_text, or_empty, rank_of, percentile_of, build_reasoning_card,
  score_or_zero,
}

-- How many scores are better.
abbrev pub better : Rational → List Rational → ℕ
better score scores = count_where (ltb_ℚ score) scores

better_antitone :
    (a b : Rational) (scores : List Rational) → leb_ℚ a b ≡ true → better b scores ≤ better a scores
unfolding ltb_ℚ
better_antitone a b [] h = omega arith
better_antitone a b (s ∷ scores) h = ground (arith, leb_ℚ_trans s a b, better_antitone a b scores h)

better_bound : (a : Rational) (scores : List Rational) → better a scores ≤ length scores
better_bound a [] = omega arith
better_bound a (s ∷ scores) = ground (arith, better_bound a scores)

-- One of the scores is not better than the score itself.
better_self :
    (a : Rational) (scores : List Rational)
    → any (λ s. leb_ℚ s a) scores ≡ true
    → suc (better a scores) ≤ length scores
unfolding ltb_ℚ
better_self a [] h = absurd cc
better_self a (s ∷ scores) h = ground (arith, better_bound a scores, better_self a scores)

-- A rank is one more than the number of better scores, so it orders the candidates as their scores
-- do, and lies within the cohort where the score, or a lower one, is among the scores.
pub rank_of-order :
    (a b : Rational) (scores : List Rational) (r q : ℕ)
    → leb_ℚ a b ≡ true
    → any (λ s. leb_ℚ s a) scores ≡ true
    → rank_of a scores ≡ some r
    → rank_of b scores ≡ some q
    → (1 ≤ q) × (q ≤ r) × (r ≤ length scores)
unfolding rank_of
rank_of-order a b [] r q h there hr hq = absurd cc
rank_of-order a b (s ∷ scores) r q h there hr hq =
    let one : r ≡ suc (better a (s ∷ scores)) = ground (arith, hr) in
    let two : q ≡ suc (better b (s ∷ scores)) = ground (arith, hq) in
    let lower = better_antitone a b (s ∷ scores) h in
    let within = better_self a (s ∷ scores) there in
    (omega (arith, two), omega (arith, one, two, lower), omega (arith, one, within))

worse_bound :
    (a : Rational) (scores : List Rational) → count_where (λ s. ltb_ℚ s a) scores ≤ length scores
worse_bound a [] = omega arith
worse_bound a (s ∷ scores) = ground (arith, worse_bound a scores)

-- A percentage, or nothing for a cohort of fewer than ten.
abbrev pub IsPercentile : ℕ → Option Rational → Type 0
IsPercentile size none = size ≤ 9
IsPercentile size (some p) =
    (10 ≤ size) × (leb_ℚ (ratio 0 0) p ≡ true) × (leb_ℚ p (ratio 100 0) ≡ true)

percentile_of-IsPercentile :
    (a : Rational) (scores : List Rational) → IsPercentile (length scores) (percentile_of a scores)
unfolding percentile_of
percentile_of-IsPercentile a scores = elim (Bool-cases (leb 10 (length scores))) [
  | inl t ↦
      let bounds =
        round_at_bounds 9 (count_where (λ s. ltb_ℚ s a) scores * 100) (length scores - 1) 100
          (ground (arith, worse_bound a scores)) in
      rw t (ground arith, bounds.0, bounds.1)
  | inr t ↦ rw t (ground arith)
]

-- A rank from one to one past the cohort, or none without a cohort.
abbrev pub IsRank : ℕ → Option ℕ → Type 0
IsRank size none = size ≡ 0
IsRank size (some r) = (1 ≤ r) × (r ≤ suc size)

rank_of-IsRank : (a : Rational) (scores : List Rational) → IsRank (length scores) (rank_of a scores)
unfolding rank_of
rank_of-IsRank a [] = refl
rank_of-IsRank a (s ∷ scores) = (omega arith, omega (arith, better_bound a (s ∷ scores)))

friendly_text-blank : (t : Text) → is_empty (friendly_text t) ≡ false
unfolding friendly_text
friendly_text-blank t = ground arith

pub friendly_error-blank : (raw : Option Text) → is_empty (friendly_error raw) ≡ false
unfolding friendly_error
friendly_error-blank none = refl
friendly_error-blank (some raw) = friendly_text-blank (strip raw)

-- The card of a candidate that was not processed: no verdict, and no place in the cohort.
pub record IsUnassessed (card : ReasoningCard) : Type 0 where
  pub no_verdict : (v : Verdict) → card.verdict ≢ verdict_text v
  pub no_rank : card.rank ≡ none
  pub no_percentile : card.percentile ≡ none
  pub no_confidence : card.confidence ≡ none
  pub explained : (t : Text) × (card.error ≡ some t) × (is_empty t ≡ false)

-- The card of a candidate with a verdict.
pub record IsAssessed (v : Verdict) (stored : Rational) (size : ℕ) (card : ReasoningCard)
    : Type 0 where
  pub verdict : card.verdict ≡ verdict_text v
  pub score : card.final_score ≡ stored
  pub rank : IsRank size card.rank
  pub percentile : IsPercentile size card.percentile
  pub no_error : card.error ≡ none

abbrev pub Presents : Evaluation → ℕ → Option Verdict → ReasoningCard → Type 0
Presents e size none card = IsUnassessed card
Presents e size (some v) card = IsAssessed v (score_or_zero e.score) size card

unprocessed_verdict : (v : Verdict) → text "Unprocessed" ≢ verdict_text v
unprocessed_verdict fit h = cc
unprocessed_verdict maybe h = cc
unprocessed_verdict reject h = cc

module _ (shown : Failure → Text) (e : Evaluation) (scores : List Rational)
    (thresholds : Dict Rational) where
  presents :
      (v : Option Verdict) → Presents e (length scores) v (card_of shown e scores thresholds v)
  presents none = record {
    no_verdict = λ v. unprocessed_verdict v;
    no_rank = refl;
    no_percentile = refl;
    no_confidence = refl;
    explained = (_, refl, friendly_error-blank (error_text shown (or_empty e.reasons)));
  }
  presents (some v) = record {
    verdict = refl;
    score = refl;
    rank = rank_of-IsRank (score_or_zero e.score) scores;
    percentile = percentile_of-IsPercentile (score_or_zero e.score) scores;
    no_error = refl;
  }

-- A candidate without a verdict gets a card that bears no verdict, rank, percentile or confidence,
-- and explains itself; one with a verdict gets a card that bears it with the score and no error, with
-- a rank from one to one past the cohort, and from ten scores on a percentile from 0 to 100.
pub build_reasoning_card-Presents :
    (shown : Failure → Text) (e : Evaluation) (scores : List Rational) (thresholds : Dict Rational)
    → Presents e (length scores) e.verdict (build_reasoning_card shown e scores thresholds)
unfolding build_reasoning_card
build_reasoning_card-Presents shown e scores thresholds =
    presents shown e scores thresholds e.verdict
