-- ===== src/Sheet.antt =====
-- app/pipeline/ingest.py, the sheets: header aliases, the detection of columns, and the rows that
-- come out of an Excel or CSV file once the file's reader has given its cells.
pub mod Rows
pub mod Columns
use right_hire.Base.{
  ℕ, ◌≡◌, Bool, true, false, not, ◌&&◌, ◌||◌, Option, none, some, List, [], ◌∷◌, ◌++◌, map, Text,
  text, text_eq, lower, strip, contains, Dict, lookup, lookup_or, insert, is_empty, is_some, any,
  all, ◌==◌, if◌then◌else◌,
}
use right_hire.Base.Rational.{Rational}

-- A cell of a sheet: nothing, a text, or another value with the text that `str` makes of it.
pub data Cell : Type 0 where
  blank : Cell
  words : Text → Cell
  number : Rational → Text → Cell
  other : Text → Cell

abbrev pub Row : Type 0
Row = Dict Cell

abbrev pub Mapping : Type 0
Mapping = Dict (Option Text)

abbrev pub canonical_fields : List Text
canonical_fields =
    text "name" ∷ text "email" ∷ text "resume_url" ∷ text "yoe" ∷ text "location" ∷ []

abbrev entries : Text → List Text → Dict Text
entries field names = map (λ n. (n, field)) names

-- `_COL_MAP`, by field.
abbrev col_map : Dict Text
col_map =
    entries (text "name") (
      text "name"
      ∷ text "full name"
      ∷ text "candidate name"
      ∷ text "applicant"
      ∷ text "applicant name"
      ∷ [])
    ++ (entries (text "email") (
          text "email"
          ∷ text "email address"
          ∷ text "e-mail"
          ∷ text "mail"
          ∷ text "contact email"
          ∷ [])
        ++ (entries (text "resume_url") (
              text "resume_url"
              ∷ text "resume url"
              ∷ text "cv url"
              ∷ text "resume link"
              ∷ text "resume_drive_link"
              ∷ text "drive link"
              ∷ text "google drive link"
              ∷ text "cv link"
              ∷ text "portfolio"
              ∷ text "attach your cv"
              ∷ text "attach cv"
              ∷ text "upload cv"
              ∷ text "upload resume"
              ∷ [])
            ++ (entries (text "yoe") (
                  text "yoe"
                  ∷ text "years of experience"
                  ∷ text "experience"
                  ∷ text "years"
                  ∷ text "exp"
                  ∷ text "total experience"
                  ∷ [])
                ++ entries (text "location") (
                    text "location"
                    ∷ text "city"
                    ∷ text "city/country"
                    ∷ text "country"
                    ∷ text "address"
                    ∷ text "region"
                    ∷ text "place"
                    ∷ []))))

-- `_FIELD_KEYWORDS`
abbrev field_keywords : List (Text × List Text)
field_keywords =
    (text "name", text "name" ∷ text "candidate" ∷ text "applicant" ∷ [])
    ∷ (text "email", text "email" ∷ text "mail" ∷ text "e-mail" ∷ [])
    ∷ (
      text "resume_url",
      text "resume"
          ∷ text "cv"
          ∷ text "portfolio"
          ∷ text "link"
          ∷ text "url"
          ∷ text "attach"
          ∷ text "drive"
          ∷ text "upload"
          ∷ [],
    )
    ∷ (text "yoe", text "year" ∷ text "exp" ∷ text "yoe" ∷ [])
    ∷ (
      text "location",
      text "location"
          ∷ text "city"
          ∷ text "country"
          ∷ text "place"
          ∷ text "address"
          ∷ text "region"
          ∷ [],
    )
    ∷ []

-- `raw.strip().lower()`
unfoldable pub tidy : Text → Text
unfolding lower strip
tidy raw = lower (strip raw)

abbrev pub known : Text → List Text → Bool
known t = any (λ u. text_eq u t)

-- What `detect_column_mapping` has found so far.
pub record Found : Type 0 where
  pub mapping : Mapping
  pub claimed : List Text

abbrev claim : Text → Text → Found → Found
claim field raw f = record {
  mapping = insert field (some raw) f.mapping;
  claimed = raw ∷ f.claimed;
}

-- `mapping[field] is None`
abbrev is_open : Text → Mapping → Bool
is_open field m = elim (lookup field m) [ some (some raw) ↦ false | _ ↦ true ]

-- The body of pass 1.
exact : Text → Found → Found
exact raw f = elim (lookup (tidy raw) col_map) [
  | none ↦ f
  | some field ↦
      if is_open field f.mapping && not (known raw f.claimed) then claim field raw f else f
]

pass_1 : List Text → Found → Found
unfolding exact
pass_1 [] f = f
pass_1 (raw ∷ raws) f = pass_1 raws (exact raw f)

-- The inner loop of pass 2, up to its `break`.
fuzzy : Text → List Text → List Text → Found → Found
fuzzy field keywords [] f = f
fuzzy field keywords (raw ∷ raws) f =
    if not (known raw f.claimed) && any (λ kw. contains (tidy raw) kw) keywords
    then claim field raw f
    else fuzzy field keywords raws f

pass_2 : List (Text × List Text) → List Text → Found → Found
unfolding fuzzy
pass_2 [] raws f = f
pass_2 ((field, keywords) ∷ rest) raws f =
    pass_2 rest raws (if is_open field f.mapping then fuzzy field keywords raws f else f)

abbrev nothing_found : Found
nothing_found = record { mapping = map (λ f. (f, none)) canonical_fields; claimed = [] }

unfoldable pub detect_column_mapping : List Text → Mapping
unfolding pass_1 pass_2 tidy
detect_column_mapping raws = (pass_2 field_keywords raws (pass_1 raws nothing_found)).mapping

-- `.replace(" ", "_")`
abbrev underscored : Text → Text
underscored = map (λ c. if c == 32 then 95 else c)

unfoldable pub normalize_header : Text → Text
unfolding tidy
normalize_header raw = lookup_or (tidy raw) (underscored (tidy raw)) col_map

-- `{v: k for k, v in mapping.items() if v is not None}`
reversed_mapping : Mapping → Dict Text → Dict Text
reversed_mapping [] d = d
reversed_mapping ((k, v) ∷ m) d =
    reversed_mapping m (elim v [ none ↦ d | some raw ↦ insert raw k d ])

rekey : Dict Text → Row → Row → Row
rekey reverse [] new_row = new_row
rekey reverse ((raw_key, value) ∷ row) new_row =
    rekey reverse row (insert (lookup_or raw_key raw_key reverse) value new_row)

unfoldable pub apply_column_mapping : List Row → Mapping → List Row
unfolding reversed_mapping rekey
apply_column_mapping rows mapping = map (λ row. rekey (reversed_mapping mapping []) row []) rows
