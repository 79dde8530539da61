-- ===== src/Candidates/Batch.antt =====
-- app/api/ingest.py: `ingest_candidates`, the upload of a sheet.
pub mod Billing
pub mod Placed
pub mod Preview
use right_hire.Base.{
  ℕ, suc, ◌+◌, Bool, true, false, not, ◌&&◌, Option, none, some, List, [], ◌∷◌, ◌++◌, map, length,
  take, Text, text, text_eq, ends_with, ltb, is_empty, lookup, if◌then◌else◌,
}
use right_hire.Base.Int.{pos, ◌-ℤ◌, ltb_ℤ}
use right_hire.Base.Rational.{Rational}
use right_hire.Config.{Settings, max_bytes}
use right_hire.Store.{User, Candidate, pending, failed, queue_failed, System, World, Failure}
use right_hire.Http.{Handler, Result, ok, err, pure, raise, raise_if, or_raise, ◌>>=◌, ◌>>◌}
use right_hire.Queue.{enqueue_candidates}
use right_hire.Jobs.{get_owned_job}
use right_hire.Sheet.{Cell, blank, words, number, other, Row, Mapping, apply_column_mapping}
use right_hire.Sheet.Rows.{shown, parse_excel, parse_excel_raw, parse_csv, parse_csv_raw}
use right_hire.Candidates.{mark, failure_evaluations, set_credits}

-- What `json.loads` makes of the form field `column_mapping`.
pub data Loaded : Type 0 where
  invalid null not_a_mapping : Loaded
  mapping : Mapping → Loaded

-- openpyxl, `csv.reader` behind the UTF-8 decoder, `json.loads`, and `float` of a text; `none` is
-- an exception.
pub record Readers : Type 0 where
  pub read_xlsx : List ℕ → Option (List (List Cell))
  pub read_csv : List ℕ → Option (List (List Text))
  pub is_utf8 : List ℕ → Bool
  pub load_json : Text → Loaded
  pub float_of : Text → Option Rational

pub record Upload : Type 0 where
  pub filename : Text
  pub content : List ℕ
  pub column_mapping : Text

abbrev pub is_xlsx : Upload → Bool
is_xlsx file = ends_with file.filename (text ".xlsx")

abbrev pub is_csv : Upload → Bool
is_csv file = ends_with file.filename (text ".csv")

-- `_validate_sheet_signature`: the first bytes are those of a zip file, or decode as UTF-8.
abbrev bad_signature : Readers → Upload → Bool
bad_signature rd file =
    if is_xlsx file
    then not (text_eq (take 4 file.content) (80 ∷ 75 ∷ 3 ∷ 4 ∷ []))
    else is_csv file && not (rd.is_utf8 (take 4096 file.content))

-- The rows under the explicit mapping, if there is one.
abbrev mapped : Loaded → (Unit {0} → List Row) → List Row → Option (List Row)
mapped null plain raw = some (plain tt)
mapped invalid plain raw = none
mapped not_a_mapping plain raw = none
mapped (mapping m) plain raw = some (apply_column_mapping raw m)

abbrev xlsx_rows : Readers → Loaded → Upload → Option (List Row)
xlsx_rows rd m file = elim (rd.read_xlsx file.content) [
  | none ↦ none
  | some cells ↦ mapped m (λ _. parse_excel cells) (parse_excel_raw cells).1
]

abbrev csv_rows : Readers → Loaded → Upload → Option (List Row)
csv_rows rd m file = elim (rd.read_csv file.content) [
  | none ↦ none
  | some cells ↦ mapped m (λ _. parse_csv cells) (parse_csv_raw cells).1
]

-- `if column_mapping:` and the `json.loads` under it.
abbrev explicit_mapping : Readers → Upload → Loaded
explicit_mapping rd file =
    if is_empty file.column_mapping then null else rd.load_json file.column_mapping

abbrev is_invalid : Loaded → Bool
is_invalid invalid = true
is_invalid _ = false

-- The checks of the upload in their order, and the rows.
unfoldable pub read_sheet : Settings → Readers → Upload → Handler (List Row)
read_sheet conf rd file = do
  raise_if (ltb (max_bytes conf) (length file.content)) 413
  raise_if (bad_signature rd file) 422
  let m = explicit_mapping rd file
  raise_if (is_invalid m) 422
  rows ←
      if is_xlsx file
      then or_raise (xlsx_rows rd m file) 422
      else if is_csv file
      then or_raise (csv_rows rd m file) 422
      else raise 400
  raise_if (is_empty rows) 422
  pure rows

-- `str(row.get(key, "")) or None`
abbrev field_text : Text → Row → Option Text
field_text key row = elim (lookup key row) [
  | none ↦ none
  | some cell ↦ if is_empty (shown cell) then none else some (shown cell)
]

-- `float(yoe_raw) if yoe_raw is not None else None`, and None for what is no number.
abbrev field_yoe : Readers → Row → Option Rational
field_yoe rd row = elim (lookup (text "yoe") row) [
  | some (words t) ↦ rd.float_of t
  | some (number q _) ↦ some q
  | _ ↦ none
]

abbrev new_candidate : World → Readers → ℕ → ℕ → Row → Candidate
new_candidate w rd job_id n row = record {
  id = w.uuid n;
  job_id = job_id;
  name = field_text (text "name") row;
  email = field_text (text "email") row;
  yoe = field_yoe rd row;
  location = field_text (text "location") row;
  resume_url = field_text (text "resume_url") row;
  resume_text = none;
  parsed = none;
  embedding = none;
  status = pending;
  created_at = w.now;
  updated_at = w.now;
  stale_retries = 0;
}

-- The loop over the rows.
unfoldable pub new_candidates : World → Readers → ℕ → ℕ → List Row → List Candidate
new_candidates w rd job_id n [] = []
new_candidates w rd job_id n (row ∷ rows) =
    new_candidate w rd job_id n row ∷ new_candidates w rd job_id (suc n) rows

abbrev pub add_candidates : List Candidate → System → System
add_candidates cs s = record s {
  db = record s.db { candidates = s.candidates ++ cs };
  drawn = s.drawn + length cs;
}

-- What is written after the enqueue: the ids that were not queued fail, with a reason.
abbrev pub record_failed : World → ℕ → List ℕ → System → System
record_failed w job_id ids s = record s {
  db = record s.db {
    candidates = mark w.now failed ids s.candidates;
    evaluations =
        s.evaluations ++ failure_evaluations w s.drawn job_id queue_failed (text "error") ids;
  };
  drawn = s.drawn + length ids;
}

abbrev pub charge : User → ℕ → System → System
charge user n s = record s {
  db = record s.db { users = set_credits user.id (user.credits -ℤ pos n) s.users };
}

pub record BulkIngestResponse : Type 0 where
  pub job_id : ℕ
  pub queued_count : ℕ
  pub candidate_ids : List ℕ
  pub failed_count : ℕ

-- From the insertion of the rows on.
unfoldable pub store_batch : World → Readers → ℕ → User → List Row → Handler BulkIngestResponse
store_batch w rd job_id user rows s =
    let cs = new_candidates w rd job_id s.drawn rows in
    let sent = enqueue_candidates w job_id (map (λ c. c.id) cs) (add_candidates cs s) in
    let marked = record_failed w job_id sent.failed sent.after in
    let charged = charge user (length sent.queued) marked in
    (
      (if is_empty sent.queued && not (is_empty sent.failed)
          then err 503
          else ok (record {
            job_id = job_id;
            queued_count = length sent.queued;
            candidate_ids = sent.queued;
            failed_count = length sent.failed;
          })),
      charged,
    )

-- `ingest_candidates`
unfoldable pub ingest_candidates :
    World → Settings → Readers → ℕ → Upload → User → Handler BulkIngestResponse
unfolding read_sheet store_batch
ingest_candidates w conf rd job_id file user = do
  job ← get_owned_job job_id user
  raise_if job.jd_parse_pending 409
  rows ← read_sheet conf rd file
  raise_if (ltb_ℤ user.credits (pos (length rows))) 402
  store_batch w rd job_id user rows
