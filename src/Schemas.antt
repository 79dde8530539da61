-- ===== src/Schemas.antt =====
-- app/schemas.py: what the LLM returns, and the bodies of the requests that edit rows.
use right_hire.Base.{List, Text, Option, Dict}
use right_hire.Base.Rational.{Rational}

pub data Verdict : Type 0 where
  fit maybe reject : Verdict

pub record ParsedResume : Type 0 where
  pub name : Text
  pub email : Text
  pub yoe : Rational
  pub location : Text
  pub skills : List Text
  pub bullets : List Text

pub record ParsedJd : Type 0 where
  pub title : Text
  pub required_skills : List Text
  pub preferred_skills : List Text
  pub min_yoe : Rational
  pub location : Text
  pub must_haves : List Text

pub record JudgeOutput : Type 0 where
  pub scores : Dict Rational
  pub reasons : Dict Text
  pub overall_score : Rational
  pub verdict : Verdict

pub record JobCreate : Type 0 where
  pub title : Text
  pub jd_raw : Text
  pub weights : Option (Dict Rational)
  pub thresholds : Option (Dict Rational)
  pub jd_parsed_override : Option ParsedJd

pub record JobUpdate : Type 0 where
  pub title : Option Text
  pub weights : Option (Dict Rational)
  pub thresholds : Option (Dict Rational)

pub record CandidateUpdate : Type 0 where
  pub name : Option Text
  pub email : Option Text
  pub yoe : Option Rational
  pub location : Option Text

pub record EvaluationUpdate : Type 0 where
  pub verdict : Option Verdict
  pub score : Option Rational
