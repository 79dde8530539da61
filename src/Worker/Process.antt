-- ===== src/Worker/Process.antt =====
-- app/workers/tasks.py: `process_candidate` and the functions that it calls.
pub mod Outcomes
pub mod Ends
pub mod Settled
pub mod Cache
use right_hire.Base.{
  ℕ, suc, Bool, true, false, not, ◌&&◌, ◌||◌, Option, none, some, List, [], ◌∷◌, ◌++◌, map, length,
  take, Text, text, text_eq, starts_with, strip, Dict, lookup, is_empty, is_some, first_where, leb,
  ltb, ◌==◌, if◌then◌else◌,
}
use right_hire.Base.Rational.{Rational, ratio, leb_ℚ, is_nonzero, round_4}
use right_hire.Config.{Settings}
use right_hire.Schemas.{Verdict, fit, maybe, reject, ParsedResume, ParsedJd, JudgeOutput}
use right_hire.Store.{
  Job, Candidate, CandidateStatus, Evaluation, Reason, said, error, skills, breakdown, Breakdown,
  Failure, no_resume, unresolved_file, fetch_failed, too_short, too_little_text, llm_unavailable,
  exception, World, set_status,
}
use right_hire.Store
use right_hire.Jobs.{find_job}
use right_hire.Candidates.{find_candidate, failure_evaluation}
use right_hire.Pipeline.Filters.{
  Rejection, insufficient_experience, location_mismatch, missing_skills, apply_filters,
}
use right_hire.Pipeline.Match.{MatchResult, all_jd_skills, match_candidate}
use right_hire.Pipeline.Score.{Signals, aggregate_score, apply_thresholds}
use right_hire.Worker.{
  Judgement, WorkerState, Provider, Services, Attempt, done, broke, Step, lift, or_break, modify,
  ◌>>=◌, ◌>>◌, on_row,
}

-- `_MIN_RESUME_CHARS`, and the test of a text against it.
abbrev pub has_enough : Text → Bool
has_enough t = leb 100 (length (strip t))

abbrev usable_text : Candidate → Option Text
usable_text c = elim c.resume_text [ none ↦ none | some t ↦ if has_enough t then some t else none ]

abbrev is_url : Text → Bool
is_url t = starts_with t (text "http://") || starts_with t (text "https://")

-- The path of the local file, after a download if there is none.
abbrev local_file : Services → Text → Attempt Text
local_file sv url =
    if sv.exists url
    then done url
    else if is_url url
    then elim (sv.fetch url) [
      | none ↦ broke fetch_failed
      | some none ↦ broke unresolved_file
      | some (some path) ↦ done path
    ]
    else broke unresolved_file

abbrev extracted : Services → Attempt Text → Attempt Text
extracted sv (broke why) = broke why
extracted sv (done path) = elim (sv.extract path) [
  | none ↦ broke (exception (text "extract failed"))
  | some t ↦ if has_enough t then done t else broke (too_little_text (length (strip t)))
]

-- Without a URL: a text that is there is too short, or there is nothing at all.
abbrev without_url : Option Text → Attempt Text
without_url (some (c ∷ t)) = broke (too_short (length (strip (c ∷ t))))
without_url _ = broke no_resume

abbrev from_url : Services → Candidate → Attempt Text
from_url sv c = elim c.resume_url [
  | some (x ∷ url) ↦ extracted sv (local_file sv (x ∷ url))
  | _ ↦ without_url c.resume_text
]

-- `_resolve_resume_text`
unfoldable pub resolve_resume_text : Services → Candidate → Attempt Text
resolve_resume_text sv c = elim (usable_text c) [ some t ↦ done t | none ↦ from_url sv c ]

abbrev pub same_text : Text → Option Text → Bool
same_text t none = false
same_text t (some u) = text_eq u t

-- `if resume_text != candidate.resume_text: candidate.resume_text = resume_text`
abbrev pub keep_text : World → Text → Candidate → Candidate
keep_text w t c = elim (same_text t c.resume_text) [
  | true ↦ c
  | false ↦ record c { resume_text = some t; updated_at = w.now }
]

abbrev lacks : Option Text → Bool
lacks none = true
lacks (some t) = is_empty t

abbrev takes_yoe : ParsedResume → Candidate → Bool
takes_yoe r c = not (is_some c.yoe) && is_nonzero r.yoe

abbrev fills : Option Text → Text → Bool
fills old new = lacks old && not (is_empty new)

-- `candidate.parsed`, and the columns that the sheet left blank.
abbrev pub backfill : World → ParsedResume → Candidate → Candidate
backfill w r c = record c {
  parsed = some r;
  yoe = if takes_yoe r c then some r.yoe else c.yoe;
  location = if fills c.location r.location then some r.location else c.location;
  name = if fills c.name r.name then some r.name else c.name;
  updated_at =
      if (not (is_some c.parsed) || takes_yoe r c)
        || (fills c.location r.location || fills c.name r.name)
      then w.now
      else c.updated_at;
}

abbrev same_vector : List Rational → List Rational → Bool
same_vector [] [] = true
same_vector (a ∷ v) (b ∷ u) = leb_ℚ a b && leb_ℚ b a && same_vector v u
same_vector _ _ = false

abbrev same_embedding : List Rational → Option (List Rational) → Bool
same_embedding v none = false
same_embedding v (some u) = same_vector v u

-- `candidate.embedding = ...`: a value that is there already is not written again.
abbrev pub keep_embedding : World → List Rational → Candidate → Candidate
keep_embedding w v c =
    if same_embedding v c.embedding then c else record c { embedding = some v; updated_at = w.now }

-- `{**reasons, "_score_breakdown": ...}`
abbrev all_reasons : Judgement → Dict Reason
all_reasons j = elim j.score_breakdown [
  | none ↦ j.reasons
  | some b ↦ j.reasons ++ (text "_score_breakdown", breakdown b) ∷ []
]

abbrev pub evaluation_of : World → ℕ → Candidate → ℕ → Judgement → ℕ → Evaluation
evaluation_of w n c job_id j key = record {
  id = w.uuid n;
  candidate_id = c.id;
  job_id = job_id;
  rubric = some j.rubric;
  score = some j.score;
  verdict = some j.verdict;
  reasons = some (all_reasons j);
  model_used = some j.model_used;
  cache_key = some key;
  created_at = w.now;
}

abbrev pub add_evaluation : Evaluation → WorkerState → WorkerState
add_evaluation e s = record s {
  system = record s.system {
    db = record s.system.db { evaluations = s.evaluations ++ e ∷ [] };
    drawn = suc s.drawn;
  };
}

-- `_write_evaluation`
unfoldable pub write_evaluation : World → Candidate → ℕ → Judgement → ℕ → WorkerState → WorkerState
write_evaluation w c job_id j key s =
    on_row c.id (set_status w.now CandidateStatus.done)
      (add_evaluation (evaluation_of w s.drawn c job_id j key) s)

-- `_cache_verdict`, and the read of the cache.
unfoldable pub cache_verdict : Services → ℕ → Judgement → WorkerState → WorkerState
cache_verdict sv key j s = if sv.redis_up then record s { verdicts = (key, j) ∷ s.verdicts } else s

abbrev pub find_verdict : ℕ → List (ℕ × Judgement) → Option Judgement
find_verdict key [] = none
find_verdict key ((k, j) ∷ rest) = if k == key then some j else find_verdict key rest

abbrev pub cached : Services → ℕ → WorkerState → Option Judgement
cached sv key s = if sv.redis_up then find_verdict key s.verdicts else none

-- The end of a run: the row and the cache entry.
abbrev pub conclude : World → Services → Candidate → ℕ → Judgement → ℕ → Step (Unit {0})
conclude w sv c job_id j key =
    modify (λ s. cache_verdict sv key j (write_evaluation w c job_id j key s))

abbrev rejection_text : Rejection → Text
rejection_text (insufficient_experience _ _) = text "Insufficient experience"
rejection_text (location_mismatch _ _) = text "Location mismatch"
rejection_text (missing_skills _) = text "Missing required skill(s)"

abbrev pub rejected : Rejection → Judgement
rejected why = record {
  verdict = reject;
  score = ratio 0 0;
  rubric = [];
  reasons = (text "filter", said (rejection_text why)) ∷ [];
  score_breakdown = none;
  model_used = text "filter";
}

-- `judge_candidate`: what the provider says, or a verdict from the overlap of skills.
unfoldable pub judge_candidate : Provider → MatchResult → ParsedJd → List Text → JudgeOutput
judge_candidate p m jd criteria = elim (p.judge m jd criteria) [
  | some out ↦ out
  | none ↦
      let score = round_4 m.skill_overlap in
      record {
        scores = (text "technical_fit", score) ∷ [];
        reasons =
            (text "technical_fit", text "LLM judge unavailable; score derived from skill overlap")
            ∷ [];
        overall_score = score;
        verdict =
            if leb_ℚ (ratio 70 99) score
            then fit
            else (if leb_ℚ (ratio 40 99) score then maybe else reject);
      }
]

-- The keys of `thresholds.get("rubric", ...)`: thresholds are numbers, and a number has no keys.
abbrev criteria_of : Dict Rational → Attempt (List Text)
criteria_of thresholds = elim (lookup (text "rubric") thresholds) [
  | none ↦ done (text "technical_fit" ∷ text "experience_depth" ∷ [])
  | some v ↦
      if is_nonzero v
      then broke (exception (text "'float' object has no attribute 'keys'"))
      else done (text "technical_fit" ∷ text "communication" ∷ text "leadership" ∷ [])
]

abbrev dict_or_empty : Option (Dict Rational) → Dict Rational
dict_or_empty none = []
dict_or_empty (some d) = d

abbrev says : JudgeOutput → Dict Reason
says out = map (λ e. (e.0, said e.1)) out.reasons

-- What the judge's answer amounts to under the weights and thresholds of the job.
abbrev judgement : Provider → Job → MatchResult → JudgeOutput → Attempt Judgement
judgement p job m out =
    let signals : Signals = record {
      skill_overlap = m.skill_overlap;
      cosine_sim = m.cosine_sim;
      overall_score = out.overall_score;
    } in
    elim (aggregate_score (dict_or_empty job.weights) signals) [
      | none ↦ broke (exception (text "float division by zero"))
      | some (score, _, b) ↦ done (record {
        verdict = apply_thresholds score (dict_or_empty job.thresholds);
        score = score;
        rubric = out.scores;
        reasons = says out ++ (text "matched_skills", skills m.matched_skills) ∷ [];
        score_breakdown = some b;
        model_used = p.model;
      })
    ]

abbrev first_or_mean : Services → List (List Rational) → List Rational
first_or_mean sv [] = []
first_or_mean sv (v ∷ []) = v
first_or_mean sv vs = sv.mean vs

abbrev texts_to_embed : ParsedResume → Text → List Text
texts_to_embed r t = if is_empty r.bullets then take 500 t ∷ [] else r.bullets

abbrev joined : List Text → Text
joined [] = []
joined (t ∷ []) = t
joined (t ∷ ts) = t ++ 32 ∷ joined ts

abbrev jd_text : ParsedJd → Text
jd_text jd = joined (all_jd_skills jd ++ jd.title ∷ [])

abbrev embedding_failure : Failure
embedding_failure = exception (text "embed failed")

-- Steps 4 to 7.
unfoldable pub judge_fresh :
    World
    → Services
    → Provider
    → Candidate
    → Job
    → Text
    → ParsedResume
    → ParsedJd
    → ℕ
    → Step (Unit {0})
unfolding judge_candidate write_evaluation cache_verdict
judge_fresh w sv p c job t r jd key = do
  vecs ← lift (or_break (sv.embed (texts_to_embed r t)) embedding_failure)
  let vec = first_or_mean sv vecs
  modify (on_row c.id (keep_embedding w vec))
  jd_vecs ← lift (or_break (sv.embed (jd_text jd ∷ [])) embedding_failure)
  similarity ←
      lift (
        or_break (sv.cosine vec (first_or_mean sv jd_vecs)) (exception (text "dimension mismatch")))
  let m = match_candidate sv.canonicalize r jd similarity
  criteria ← lift (criteria_of (dict_or_empty job.thresholds))
  j ← lift (judgement p job m (judge_candidate p m jd criteria))
  conclude w sv c job.id j key

abbrev resume_of : Settings → Provider → Candidate → Text → Attempt ParsedResume
resume_of conf p c t = elim c.parsed [
  | some r ↦ done r
  | none ↦
      or_break (p.parse_resume (take conf.resume_max_chars t)) (llm_unavailable (text "resume"))
]

abbrev jd_of : Settings → Provider → Job → Attempt ParsedJd
jd_of conf p job = elim job.jd_parsed [
  | some jd ↦ done jd
  | none ↦ or_break (p.parse_jd (take conf.jd_max_chars job.jd_raw)) (llm_unavailable (text "JD"))
]

-- Step 3: a candidate who fails a filter is rejected without a judge.
unfoldable pub after_filters :
    World
    → Services
    → Provider
    → Candidate
    → Job
    → Text
    → ParsedResume
    → ParsedJd
    → ℕ
    → Option Rejection
    → Step (Unit {0})
unfolding judge_fresh write_evaluation cache_verdict
after_filters w sv p c job t r jd key (some why) = conclude w sv c job.id (rejected why) key
after_filters w sv p c job t r jd key none = judge_fresh w sv p c job t r jd key

-- Steps 2 and 3, and the rest for a candidate who passes the filters.
unfoldable pub evaluate_fresh :
    World → Settings → Services → Candidate → Job → Text → ℕ → Step (Unit {0})
unfolding after_filters
evaluate_fresh w conf sv c job t key = do
  p ← lift (or_break sv.provider (llm_unavailable (text "provider")))
  r ← lift (resume_of conf p c t)
  jd ← lift (jd_of conf p job)
  modify (on_row c.id (backfill w r))
  after_filters w sv p c job t r jd key (apply_filters r jd (dict_or_empty job.thresholds))

abbrev pub key_of : Services → Job → Text → ℕ
key_of sv job t =
    sv.cache_key t job.jd_parsed (dict_or_empty job.weights) (dict_or_empty job.thresholds)

unfoldable pub after_cache :
    World → Settings → Services → Candidate → Job → Text → ℕ → Option Judgement → Step (Unit {0})
unfolding evaluate_fresh write_evaluation
after_cache w conf sv c job t key (some j) = modify (write_evaluation w c job.id j key)
after_cache w conf sv c job t key none = evaluate_fresh w conf sv c job t key

-- From the resume text on: the cached verdict, or a fresh one.
unfoldable pub evaluate_text :
    World → Settings → Services → Candidate → Job → Text → Step (Unit {0})
unfolding after_cache
evaluate_text w conf sv c job t s =
    let key = key_of sv job t in after_cache w conf sv c job t key (cached sv key s) s

-- The body of the `try`.
unfoldable pub evaluate : World → Settings → Services → Candidate → Job → Step (Unit {0})
unfolding resolve_resume_text evaluate_text
evaluate w conf sv c job = do
  t ← lift (resolve_resume_text sv c)
  modify (on_row c.id (keep_text w t))
  evaluate_text w conf sv c job t

-- The handler of the exception.
unfoldable pub record_failure : World → Candidate → ℕ → Failure → WorkerState → WorkerState
record_failure w c job_id why s =
    on_row c.id (set_status w.now CandidateStatus.failed)
      (add_evaluation (failure_evaluation w s.drawn c.id job_id why (text "error")) s)

abbrev pub handled : World → Candidate → ℕ → Attempt (Unit {0}) × WorkerState → WorkerState
handled w c job_id (done _, s) = s
handled w c job_id (broke why, s) = record_failure w c job_id why s

abbrev pub start : World → Candidate → WorkerState → WorkerState
start w c = on_row c.id (set_status w.now CandidateStatus.processing)

-- `process_candidate`; a missing row ends it at once.
unfoldable pub process_candidate : World → Settings → Services → ℕ → ℕ → WorkerState → WorkerState
unfolding evaluate record_failure
process_candidate w conf sv candidate_id job_id s =
    elim (find_candidate candidate_id s.candidates) [
      | none ↦ s
      | some c ↦ elim (find_job job_id s.jobs) [
        | none ↦ s
        | some job ↦ handled w c job_id (evaluate w conf sv c job (start w c s))
      ]
    ]
