-- ===== src/Candidates/Batch/Preview.antt =====
-- app/api/ingest.py: `preview_columns`, the columns of a sheet before it is uploaded.
use right_hire.Base.{ℕ, Option, none, some, List, Text, take, length, ltb, if◌then◌else◌}
use right_hire.Config.{Settings, max_bytes}
use right_hire.Store.{User}
use right_hire.Http.{Handler, pure, raise, raise_if, or_raise, ◌>>=◌, ◌>>◌}
use right_hire.Http.Reads.{Reads, reads_rules}
use right_hire.Jobs.{get_owned_job, Reads-get_owned_job}
use right_hire.Sheet.{Row, Mapping, detect_column_mapping}
use right_hire.Sheet.Rows.{parse_excel_raw, parse_csv_raw}
use right_hire.Candidates.Batch.{Readers, Upload, is_xlsx, is_csv, bad_signature}

pub record ColumnPreviewResponse : Type 0 where
  pub columns : List Text
  pub mapping : Mapping
  pub sample_rows : List Row

abbrev xlsx_columns : Readers → Upload → Option (List Text × List Row)
xlsx_columns rd file = elim (rd.read_xlsx file.content) [
  | none ↦ none
  | some cells ↦ some (parse_excel_raw cells)
]

abbrev csv_columns : Readers → Upload → Option (List Text × List Row)
csv_columns rd file = elim (rd.read_csv file.content) [
  | none ↦ none
  | some cells ↦ some (parse_csv_raw cells)
]

abbrev read_columns : Readers → Upload → Handler (List Text × List Row)
read_columns rd file =
    if is_xlsx file
    then or_raise (xlsx_columns rd file) 422
    else if is_csv file
    then or_raise (csv_columns rd file) 422
    else raise 400

unfoldable pub preview_columns :
    Settings → Readers → ℕ → Upload → User → Handler ColumnPreviewResponse
unfolding detect_column_mapping
preview_columns conf rd job_id file user = do
  get_owned_job job_id user
  raise_if (ltb (max_bytes conf) (length file.content)) 413
  raise_if (bad_signature rd file) 422
  raw ← read_columns rd file
  pure (record {
    columns = raw.0;
    mapping = detect_column_mapping raw.0;
    sample_rows = take 3 raw.1;
  })

-- A preview creates no candidate and changes nothing else.
pub Reads-preview_columns :
    (conf : Settings) (rd : Readers) (job_id : ℕ) (file : Upload) (user : User)
    → Reads (preview_columns conf rd job_id file user)
unfolding preview_columns
Reads-preview_columns conf rd job_id file user = search (Reads-get_owned_job, reads_rules) depth 16
