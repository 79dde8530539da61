-- ===== src/Pipeline/Filters/Rules.antt =====
-- app/pipeline/filters.py: the rules that `apply_filters` states.
use right_hire.Base.{
  ◌≡◌, refl, ◌⊎◌, ◌↔◌, Bool, true, false, not, ◌&&◌, none, List, [], ◌∷◌, arith, Text, Dict,
  is_empty, All, select_where, inl, inr, contains,
}
use right_hire.Base.Rational.{Rational, ratio, leb_ℚ, ltb_ℚ, positive-is_nonzero}
use right_hire.Schemas.{ParsedResume, ParsedJd}
use right_hire.Pipeline.Filters.{
  too_junior, elsewhere, has_skill, missing, apply_filters, yoe_threshold, is_strict, place,
}

-- The job asks for no experience, or the candidate has as much as the threshold.
abbrev pub IsSenior : ParsedResume → ParsedJd → Dict Rational → Type 0
IsSenior c jd thresholds =
    (leb_ℚ jd.min_yoe (ratio 0 0) ≡ true) ⊎ (leb_ℚ (yoe_threshold jd thresholds) c.yoe ≡ true)

-- The location does not count, is not known on one side, or one name is within the other.
pub data IsLocal (c : ParsedResume) (jd : ParsedJd) (thresholds : Dict Rational) : Type 0 where
  lenient : is_strict thresholds ≡ false → IsLocal c jd thresholds
  unplaced : is_empty jd.location ≡ true → IsLocal c jd thresholds
  jd_blank : is_empty (place jd.location) ≡ true → IsLocal c jd thresholds
  candidate_blank : is_empty (place c.location) ≡ true → IsLocal c jd thresholds
  jd_within : contains (place c.location) (place jd.location) ≡ true → IsLocal c jd thresholds
  candidate_within :
      contains (place jd.location) (place c.location) ≡ true → IsLocal c jd thresholds

pub record Passes (c : ParsedResume) (jd : ParsedJd) (thresholds : Dict Rational) : Type 0 where
  pub senior : IsSenior c jd thresholds
  pub near : IsLocal c jd thresholds
  pub skilled : All (λ skill. has_skill c skill ≡ true) jd.must_haves

too_junior→IsSenior :
    (c : ParsedResume) (jd : ParsedJd) (thresholds : Dict Rational)
    → too_junior c jd thresholds ≡ false
    → IsSenior c jd thresholds
unfolding ltb_ℚ
too_junior→IsSenior c jd thresholds h = ground (arith, positive-is_nonzero jd.min_yoe)

IsSenior→too_junior :
    (c : ParsedResume) (jd : ParsedJd) (thresholds : Dict Rational)
    → IsSenior c jd thresholds
    → too_junior c jd thresholds ≡ false
unfolding ltb_ℚ
IsSenior→too_junior c jd thresholds (inl h) = ground arith
IsSenior→too_junior c jd thresholds (inr h) = ground arith

elsewhere→IsLocal :
    (strict unset blank_jd blank_c in_c in_jd : Bool) (P : Type 0)
    → ((strict && not unset) && ((not blank_jd && not blank_c) && (not in_c && not in_jd))) ≡ false
    → (strict ≡ false → P)
    → (unset ≡ true → P)
    → (blank_jd ≡ true → P)
    → (blank_c ≡ true → P)
    → (in_c ≡ true → P)
    → (in_jd ≡ true → P)
    → P
elsewhere→IsLocal false _ _ _ _ _ P h a b c d e f = a refl
elsewhere→IsLocal true true _ _ _ _ P h a b c d e f = b refl
elsewhere→IsLocal true false true _ _ _ P h a b c d e f = c refl
elsewhere→IsLocal true false false true _ _ P h a b c d e f = d refl
elsewhere→IsLocal true false false false true _ P h a b c d e f = e refl
elsewhere→IsLocal true false false false false true P h a b c d e f = f refl
elsewhere→IsLocal true false false false false false P h a b c d e f = cc

IsLocal→elsewhere :
    (c : ParsedResume) (jd : ParsedJd) (thresholds : Dict Rational)
    → IsLocal c jd thresholds
    → elsewhere c jd thresholds ≡ false
IsLocal→elsewhere c jd thresholds (lenient h) = ground arith
IsLocal→elsewhere c jd thresholds (unplaced h) = ground arith
IsLocal→elsewhere c jd thresholds (jd_blank h) = ground arith
IsLocal→elsewhere c jd thresholds (candidate_blank h) = ground arith
IsLocal→elsewhere c jd thresholds (jd_within h) = ground arith
IsLocal→elsewhere c jd thresholds (candidate_within h) = ground arith

missing→All :
    (c : ParsedResume) (l : List Text)
    → is_empty (select_where (λ skill. not (has_skill c skill)) l) ≡ true
    → All (λ skill. has_skill c skill ≡ true) l
missing→All c [] h = tt
missing→All c (t ∷ l) h = ground (arith, missing→All c l)

All→missing :
    (c : ParsedResume) (l : List Text)
    → All (λ skill. has_skill c skill ≡ true) l
    → is_empty (select_where (λ skill. not (has_skill c skill)) l) ≡ true
All→missing c [] h = refl
All→missing c (t ∷ l) h = ground (arith, All→missing c l h.1)

IsLocal-of :
    (c : ParsedResume) (jd : ParsedJd) (thresholds : Dict Rational)
    → elsewhere c jd thresholds ≡ false
    → IsLocal c jd thresholds
IsLocal-of c jd thresholds h =
    elsewhere→IsLocal (is_strict thresholds) (is_empty jd.location) (is_empty (place jd.location))
      (is_empty (place c.location)) (contains (place c.location) (place jd.location))
      (contains (place jd.location) (place c.location)) (IsLocal c jd thresholds) h lenient unplaced
      jd_blank candidate_blank jd_within candidate_within

Passes-of :
    (c : ParsedResume) (jd : ParsedJd) (thresholds : Dict Rational)
    → too_junior c jd thresholds ≡ false
    → elsewhere c jd thresholds ≡ false
    → is_empty (missing c jd) ≡ true
    → Passes c jd thresholds
Passes-of c jd thresholds h k l = record {
  senior = too_junior→IsSenior c jd thresholds h;
  near = IsLocal-of c jd thresholds k;
  skilled = missing→All c jd.must_haves l;
}

-- A candidate passes exactly if the job asks for no experience or the candidate has what the
-- threshold wants, the location does not count or fits, and every must-have is among the skills, one
-- text within the other.
pub apply_filters-Passes :
    (c : ParsedResume) (jd : ParsedJd) (thresholds : Dict Rational)
    → (apply_filters c jd thresholds ≡ none) ↔ Passes c jd thresholds
unfolding apply_filters
apply_filters-Passes c jd thresholds = (
  λ h. Passes-of c jd thresholds (ground arith) (ground arith) (ground arith),
  λ p. ground (
    arith,
    IsSenior→too_junior c jd thresholds p.senior,
    IsLocal→elsewhere c jd thresholds p.near,
    All→missing c jd.must_haves p.skilled,
  ),
)
