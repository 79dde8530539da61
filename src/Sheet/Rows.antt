-- ===== src/Sheet/Rows.antt =====
-- app/pipeline/ingest.py: `parse_excel`, `parse_excel_raw`, `parse_csv` and `parse_csv_raw`, after
-- openpyxl or `csv.reader` has read the cells.
use right_hire.Base.{
  Bool, true, false, not, List, [], ◌∷◌, map, Text, strip, insert, is_empty, any, all,
  if◌then◌else◌,
}
use right_hire.Sheet.{Cell, blank, words, number, other, Row, normalize_header}

abbrev pub is_blank : Cell → Bool
is_blank blank = true
is_blank _ = false

-- `str(v) if v is not None else ""`
abbrev pub shown : Cell → Text
shown blank = []
shown (words t) = t
shown (number _ printed) = printed
shown (other printed) = printed

-- The loop over `zip(headers, row)` of `parse_excel`.
excel_record : List Text → List Cell → Row → Row
excel_record [] row r = r
excel_record (h ∷ hs) [] r = r
excel_record (h ∷ hs) (v ∷ row) r =
    excel_record hs row (if is_empty h then r else (if is_blank v then r else insert h v r))

-- The loop over the rows, one record for each row that keeps one.
keep_records : (List Cell → Row) → (Row → Bool) → List (List Cell) → List Row
keep_records build keep [] = []
keep_records build keep (row ∷ rows) =
    let rest = keep_records build keep rows in
    if all is_blank row then rest else (if keep (build row) then build row ∷ rest else rest)

abbrev non_empty : Row → Bool
non_empty r = not (is_empty r)

unfoldable pub parse_excel : List (List Cell) → List Row
unfolding excel_record keep_records normalize_header
parse_excel [] = []
parse_excel (top ∷ rows) =
    let headers = map (λ h. normalize_header (shown h)) top in
    keep_records (λ row. excel_record headers row []) non_empty rows

-- `{h: shown(v) for h, v in zip(raw_headers, row)}`
zip_record : List Text → List Cell → Row → Row
zip_record [] row r = r
zip_record (h ∷ hs) [] r = r
zip_record (h ∷ hs) (v ∷ row) r = zip_record hs row (insert h (words (shown v)) r)

-- `any(v for v in record.values())`
abbrev has_value : Row → Bool
has_value r = any (λ e. not (is_empty (shown e.1))) r

unfoldable pub parse_excel_raw : List (List Cell) → List Text × List Row
unfolding zip_record keep_records
parse_excel_raw [] = ([], [])
parse_excel_raw (top ∷ rows) =
    let raw_headers = map shown top in
    (raw_headers, keep_records (λ row. zip_record raw_headers row []) has_value rows)

-- A CSV cell is stripped; one that is then empty counts as blank.
abbrev stripped : Text → Cell
stripped t = if is_empty (strip t) then blank else words (strip t)

unfoldable pub parse_csv : List (List Text) → List Row
unfolding excel_record keep_records normalize_header strip
parse_csv [] = []
parse_csv (top ∷ rows) =
    let headers = map normalize_header top in
    keep_records (λ row. excel_record headers row []) non_empty (map (map stripped) rows)

unfoldable pub parse_csv_raw : List (List Text) → List Text × List Row
unfolding zip_record keep_records strip
parse_csv_raw [] = ([], [])
parse_csv_raw (top ∷ rows) =
    let raw_headers = map strip top in
    (
      raw_headers,
      keep_records (λ row. zip_record raw_headers row []) has_value (map (map stripped) rows),
    )
