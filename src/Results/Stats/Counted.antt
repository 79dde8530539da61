-- ===== src/Results/Stats/Counted.antt =====
-- app/api/results.py: what the histogram and the verdict counts add up to.
use mathlib.Core.Path.{subst}
use right_hire.Base.{
  ℕ, suc, ◌+◌, ◌≤◌, ◌≡◌, refl, sym, ap, text_eq, count_where, Bool, true, false, inl, inr, arith,
  Option-cases, Option, none, some, List, [], ◌∷◌, Text, Dict, lookup, insert, lookup-insert,
  is_some, length, all, min, holds_below, holds_below-true,
}
use right_hire.Base.Int.{ℤ, pos, negsuc}
use right_hire.Base.Rational.{Rational}
use right_hire.Schemas.{Verdict, fit, maybe, reject}
use right_hire.Store.{Evaluation}
use right_hire.Results.{verdict_text}
use right_hire.Results.Stats.{
  Floats, bucket_label, empty_buckets, bump_label, bump_bucket, fill_buckets, build_histogram,
  VerdictCounts, count_verdict, verdict_counts,
}

abbrev pub total : Dict ℕ → ℕ
total [] = 0
total ((_, n) ∷ d) = n + total d

total-insert :
    (k : Text) (n : ℕ) (d : Dict ℕ)
    → lookup k d ≡ some n
    → total (insert k (suc n) d) ≡ suc (total d)
total-insert k n [] h = cc
total-insert k n ((j, m) ∷ d) h = ground (arith, total-insert k n d)

-- Each label of a bucket is a key.
abbrev HasLabels : Dict ℕ → Type 0
HasLabels d = (i : ℕ) → i ≤ 9 → is_some (lookup (bucket_label i) d) ≡ true

HasLabels-insert : (k : Text) (n : ℕ) (d : Dict ℕ) → HasLabels d → HasLabels (insert k n d)
HasLabels-insert k n d h i l = ground (arith, lookup-insert k (bucket_label i) n d, h i l)

-- One score more, in one of the buckets.
record Bumped (d : Dict ℕ) (o : Option (Dict ℕ)) : Type 0 where
  after : Dict ℕ
  value : o ≡ some after
  labels : HasLabels after
  count : total after ≡ suc (total d)

bump_label-Bumped :
    (i : ℕ) (d : Dict ℕ) → i ≤ 9 → HasLabels d → Bumped d (bump_label (bucket_label i) d)
bump_label-Bumped i d l h = elim (Option-cases (lookup (bucket_label i) d)) [
  | inl e ↦ absurd (ground (arith, h i l, e))
  | inr (n, e) ↦ record {
    after = insert (bucket_label i) (suc n) d;
    value = ground (arith, e);
    labels = HasLabels-insert (bucket_label i) (suc n) d h;
    count = total-insert (bucket_label i) n d e;
  }
]

abbrev is_counted : ℤ → Bool
is_counted (pos _) = true
is_counted (negsuc _) = false

-- Every score lands in a bucket.
abbrev pub all_counted : Floats → List Rational → Bool
all_counted fl = all (λ s. is_counted (fl.bucket s))

abbrev Filled : Floats → List Rational → ℕ → Option (Dict ℕ) → Type 0
Filled fl scores n none = all_counted fl scores ≡ false
Filled fl scores n (some d) = (total d ≡ n + length scores) × (all_counted fl scores ≡ true)

bump_bucket-Bumped : (i : ℕ) (d : Dict ℕ) → HasLabels d → Bumped d (bump_bucket (pos i) d)
bump_bucket-Bumped i d h = bump_label-Bumped (min i 9) d (omega arith) h

module _ (fl : Floats) where
  Filled-later :
      (s : Rational) (scores : List Rational) (n : ℕ) (o : Option (Dict ℕ))
      → is_counted (fl.bucket s) ≡ true
      → Filled fl scores (suc n) o
      → Filled fl (s ∷ scores) n o
  Filled-later s scores n none h k = ground (arith, h, k)
  Filled-later s scores n (some d) h k = (omega (arith, k.0), ground (arith, h, k.1))

  abbrev filled_next : List Rational → Option (Dict ℕ) → Option (Dict ℕ)
  filled_next scores none = none
  filled_next scores (some d) = fill_buckets fl scores d

  by_bucket :
      (s : Rational) (scores : List Rational) (d : Dict ℕ) (z : ℤ)
      → ((d' : Dict ℕ) → HasLabels d' → Filled fl scores (total d') (fill_buckets fl scores d'))
      → HasLabels d
      → fl.bucket s ≡ z
      → Filled fl (s ∷ scores) (total d) (filled_next scores (bump_bucket z d))
  by_bucket s scores d (negsuc i) later h e = ground (arith, e)
  by_bucket s scores d (pos i) later h e =
      let b = bump_bucket-Bumped i d h in
      subst (λ o. Filled fl (s ∷ scores) (total d) (filled_next scores o)) (sym b.value)
        (Filled-later s scores (total d) (fill_buckets fl scores b.after) (ground (arith, e)) (
          subst (λ n. Filled fl scores n (fill_buckets fl scores b.after)) b.count
            (later b.after b.labels)))

  fill_buckets-Filled :
      (scores : List Rational) (d : Dict ℕ)
      → HasLabels d
      → Filled fl scores (total d) (fill_buckets fl scores d)
  unfolding fill_buckets
  fill_buckets-Filled [] d h = (omega arith, refl)
  fill_buckets-Filled (s ∷ scores) d h =
      by_bucket s scores d (fl.bucket s) (fill_buckets-Filled scores) h refl

abbrev starts_empty : ℕ → Bool
starts_empty i = is_some (lookup (bucket_label i) (empty_buckets 10 0))

empty_buckets_all : holds_below 10 starts_empty ≡ true
unfolding empty_buckets bucket_label
empty_buckets_all = refl

abbrev pub Histogram : Floats → List Rational → Option (Dict ℕ) → Type 0
Histogram fl scores none = all_counted fl scores ≡ false
Histogram fl scores (some d) = (total d ≡ length scores) × (all_counted fl scores ≡ true)

Filled-Histogram :
    (fl : Floats) (scores : List Rational) (o : Option (Dict ℕ))
    → Filled fl scores 0 o
    → Histogram fl scores o
Filled-Histogram fl scores none h = h
Filled-Histogram fl scores (some d) h = (omega (arith, h.0), h.1)

total_empty : total (empty_buckets 10 0) ≡ 0
unfolding empty_buckets
total_empty = refl

-- The counts of the histogram add up to the number of scores; it is missing, which is a `KeyError`,
-- just when the bucket of some score has a negative number.
pub build_histogram-Histogram :
    (fl : Floats) (scores : List Rational) → Histogram fl scores (build_histogram fl scores)
unfolding build_histogram
build_histogram-Histogram fl [] = (refl, refl)
build_histogram-Histogram fl (s ∷ scores) =
    Filled-Histogram fl (s ∷ scores) (fill_buckets fl (s ∷ scores) (empty_buckets 10 0)) (
      subst (λ n. Filled fl (s ∷ scores) n (fill_buckets fl (s ∷ scores) (empty_buckets 10 0)))
        total_empty
        (fill_buckets-Filled fl (s ∷ scores) (empty_buckets 10 0)
          (λ i l. holds_below-true 10 starts_empty i empty_buckets_all (omega (arith, l)))))

-- The rows with a verdict, and those without.
abbrev pub is_judged : Verdict → Evaluation → Bool
is_judged v e = elim e.verdict [ none ↦ false | some u ↦ text_eq (verdict_text u) (verdict_text v) ]

abbrev pub is_unjudged : Evaluation → Bool
is_unjudged e = elim e.verdict [ none ↦ true | some u ↦ false ]

pub record Judged (es : List Evaluation) (n : VerdictCounts) : Type 0 where
  pub fits : n.fits ≡ count_where (is_judged fit) es
  pub maybes : n.maybes ≡ count_where (is_judged maybe) es
  pub rejects : n.rejects ≡ count_where (is_judged reject) es
  pub all_of_them : n.fits + n.maybes + n.rejects + count_where is_unjudged es ≡ length es

one_more :
    (e : Evaluation) (es : List Evaluation) (n : VerdictCounts) (v : Option Verdict)
    → e.verdict ≡ v
    → Judged es n
    → Judged (e ∷ es) (count_verdict v n)
one_more e es n none h j = record {
  fits = rw h j.fits;
  maybes = rw h j.maybes;
  rejects = rw h j.rejects;
  all_of_them = rw h (omega (arith, j.all_of_them));
}
one_more e es n (some fit) h j = record {
  fits = rw h (ap suc j.fits);
  maybes = rw h j.maybes;
  rejects = rw h j.rejects;
  all_of_them = rw h (omega (arith, j.all_of_them));
}
one_more e es n (some maybe) h j = record {
  fits = rw h j.fits;
  maybes = rw h (ap suc j.maybes);
  rejects = rw h j.rejects;
  all_of_them = rw h (omega (arith, j.all_of_them));
}
one_more e es n (some reject) h j = record {
  fits = rw h j.fits;
  maybes = rw h j.maybes;
  rejects = rw h (ap suc j.rejects);
  all_of_them = rw h (omega (arith, j.all_of_them));
}

pub verdict_counts-Judged : (es : List Evaluation) → Judged es (verdict_counts es)
unfolding verdict_counts
verdict_counts-Judged [] = record { fits = refl; maybes = refl; rejects = refl; all_of_them = refl }
verdict_counts-Judged (e ∷ es) =
    one_more e es (verdict_counts es) e.verdict refl (verdict_counts-Judged es)
