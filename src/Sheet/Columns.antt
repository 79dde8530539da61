-- ===== src/Sheet/Columns.antt =====
-- app/pipeline/ingest.py: which columns `detect_column_mapping` gives to which fields.
use right_hire.Base.{
  ◌≡◌, true, false, not, ◌&&◌, none, some, List, [], ◌∷◌, arith, Text, not-true, and-true_left,
  and-true_right, text_eq_iff, contains, ◌≢◌, All, Option-cases, map, lookup, lookup-insert, any,
  Bool-cases, inl, inr,
}
use right_hire.Sheet.{
  tidy, col_map, canonical_fields, known, Found, claim, is_open, exact, pass_1, fuzzy, pass_2,
  nothing_found, detect_column_mapping, field_keywords,
}

-- Every column that a field has is claimed and stands in the sheet; no two fields share one.
record IsConsistent (raws : List Text) (f : Found) : Type 0 where
  claimed :
      (field raw : Text) → lookup field f.mapping ≡ some (some raw) → known raw f.claimed ≡ true
  listed : (field raw : Text) → lookup field f.mapping ≡ some (some raw) → known raw raws ≡ true
  unshared :
      (field other raw : Text)
      → lookup field f.mapping ≡ some (some raw)
      → lookup other f.mapping ≡ some (some raw)
      → field ≡ other

known_self : (t : Text) (l : List Text) → known t (t ∷ l) ≡ true
known_self t l = ground (arith, text_eq_iff t t)

known_cons : (t u : Text) (l : List Text) → known t l ≡ true → known t (u ∷ l) ≡ true
known_cons t u l h = ground arith

claim-IsConsistent :
    (raws : List Text) (field raw : Text) (f : Found)
    → known raw raws ≡ true
    → known raw f.claimed ≡ false
    → IsConsistent raws f
    → IsConsistent raws (claim field raw f)
claim-IsConsistent raws field raw f here fresh c = record {
  claimed = λ g r.
      ground (arith, lookup-insert field g (some raw) f.mapping, c.claimed g r, text_eq_iff raw r);
  listed = λ g r. ground (arith, lookup-insert field g (some raw) f.mapping, c.listed g r);
  unshared = λ g h r. ground (
    arith,
    lookup-insert field g (some raw) f.mapping,
    lookup-insert field h (some raw) f.mapping,
    c.unshared g h r,
    c.claimed g r,
    c.claimed h r,
    text_eq_iff field g,
    text_eq_iff field h,
  );
}

module _ (sheet : List Text) where
  abbrev Listed : List Text → Type 0
  Listed raws = All (λ r. known r sheet ≡ true) raws

  exact-IsConsistent :
      (raw : Text) (f : Found)
      → known raw sheet ≡ true
      → IsConsistent sheet f
      → IsConsistent sheet (exact raw f)
  unfolding exact
  exact-IsConsistent raw f here c = elim (Option-cases (lookup (tidy raw) col_map)) [
    | inl e ↦ rw (e, exact) c
    | inr (field, e) ↦
        rw (e, exact)
          (elim (Bool-cases (is_open field f.mapping && not (known raw f.claimed))) [
            | inl t ↦ rw t (
                claim-IsConsistent sheet field raw f here
                  (not-true _ (and-true_right (is_open field f.mapping) _ t)) c)
            | inr t ↦ rw t c
          ])
  ]

  pass_1-IsConsistent :
      (raws : List Text) (f : Found)
      → Listed raws
      → IsConsistent sheet f
      → IsConsistent sheet (pass_1 raws f)
  unfolding pass_1
  pass_1-IsConsistent [] f l c = c
  pass_1-IsConsistent (raw ∷ raws) f l c =
      pass_1-IsConsistent raws (exact raw f) l.1 (exact-IsConsistent raw f l.0 c)

  fuzzy-IsConsistent :
      (field : Text) (keywords raws : List Text) (f : Found)
      → Listed raws
      → IsConsistent sheet f
      → IsConsistent sheet (fuzzy field keywords raws f)
  unfolding fuzzy
  fuzzy-IsConsistent field keywords [] f l c = c
  fuzzy-IsConsistent field keywords (raw ∷ raws) f l c =
      let test = not (known raw f.claimed) && any (λ kw. contains (tidy raw) kw) keywords in
      elim (Bool-cases test) [
        | inl t ↦ rw t (
            claim-IsConsistent sheet field raw f l.0
              (not-true _ (and-true_left (not (known raw f.claimed)) _ t)) c)
        | inr t ↦ rw t (fuzzy-IsConsistent field keywords raws f l.1 c)
      ]

  pass_2-IsConsistent :
      (fields : List (Text × List Text)) (f : Found)
      → Listed sheet
      → IsConsistent sheet f
      → IsConsistent sheet (pass_2 fields sheet f)
  unfolding pass_2
  pass_2-IsConsistent [] f l c = c
  pass_2-IsConsistent ((field, keywords) ∷ rest) f l c =
      elim (Bool-cases (is_open field f.mapping)) [
        | inl t ↦ rw t (
            pass_2-IsConsistent rest (fuzzy field keywords sheet f) l
              (fuzzy-IsConsistent field keywords sheet f l c))
        | inr t ↦ rw t (pass_2-IsConsistent rest f l c)
      ]

  lookup-nothing :
      (g : Text) (fields : List Text) (r : Text)
      → lookup g (map (λ f. (f, none)) fields) ≢ some (some r)
  lookup-nothing g [] r e = cc
  lookup-nothing g (f ∷ fields) r e = ground (arith, lookup-nothing g fields r)

  nothing-IsConsistent : IsConsistent sheet nothing_found
  nothing-IsConsistent = record {
    claimed = λ g r e. absurd (lookup-nothing g canonical_fields r e);
    listed = λ g r e. absurd (lookup-nothing g canonical_fields r e);
    unshared = λ g h r e k. absurd (lookup-nothing g canonical_fields r e);
  }

Listed-mono : (sheet raws : List Text) (u : Text) → Listed sheet raws → Listed (u ∷ sheet) raws
Listed-mono sheet [] u h = tt
Listed-mono sheet (r ∷ raws) u h = (known_cons r u sheet h.0, Listed-mono sheet raws u h.1)

Listed-self : (sheet : List Text) → Listed sheet sheet
Listed-self [] = tt
Listed-self (r ∷ raws) = (known_self r raws, Listed-mono raws raws r (Listed-self raws))

detected :
    (sheet : List Text)
    → IsConsistent sheet (pass_2 field_keywords sheet (pass_1 sheet nothing_found))
detected sheet =
    pass_2-IsConsistent sheet field_keywords (pass_1 sheet nothing_found) (Listed-self sheet) (
      pass_1-IsConsistent sheet sheet nothing_found (Listed-self sheet)
        (nothing-IsConsistent sheet))

-- For any headers, a column that the detection gives to a field is one of the headers, and no other
-- field is given the same column.
pub detect_column_mapping_unshared :
    (sheet : List Text) (field other raw : Text)
    → lookup field (detect_column_mapping sheet) ≡ some (some raw)
    → (known raw sheet ≡ true)
      × (lookup other (detect_column_mapping sheet) ≡ some (some raw) → field ≡ other)
unfolding detect_column_mapping
detect_column_mapping_unshared sheet field other raw e =
    let c = detected sheet in (c.listed field raw e, c.unshared field other raw e)
