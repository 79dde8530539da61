-- ===== src/Pipeline/Skills.antt =====
-- app/skills/canonicalize.py: `canonicalize_skill`, over the taxonomy and the similarities of a skill to
-- its entries, and app/pipeline/embed.py: the choices that are the code's own.
use right_hire.Base.{Option, none, some, List, [], ◌∷◌, Text, text, if◌then◌else◌}
use right_hire.Base.Rational.{Rational, leb_ℚ}

-- `np.argmax`, the first entry with the highest similarity, with that similarity.
abbrev best_from : Text × Rational → List (Text × Rational) → Text × Rational
best_from best [] = best
best_from (t, q) ((u, r) ∷ rest) = best_from (if leb_ℚ r q then (t, q) else (u, r)) rest

-- `canonicalize_skill`, over the similarities to the entries of the taxonomy, of which there is a
-- first. None stands for a model that could not be loaded.
unfoldable pub canonicalize_skill :
    Option (Text → (Text × Rational) × List (Text × Rational)) → Rational → Text → Text
canonicalize_skill none threshold skill = skill
canonicalize_skill (some similar) threshold skill =
    let best = best_from (similar skill).0 (similar skill).1 in
    if leb_ℚ threshold best.1 then best.0 else skill

-- `get_embedder`: the configured model, or the fallback if it does not load.
abbrev fallback_model : Text
fallback_model = text "all-MiniLM-L6-v2"

unfoldable pub get_embedder : {M : Type 0} → (Text → Option M) → Text → Option M
get_embedder load name = elim (load name) [ some m ↦ some m | none ↦ load fallback_model ]

-- `embed_texts`
unfoldable pub embed_texts :
    {M : Type 0}
    → (Text → Option M)
    → (M → List Text → Option (List (List Rational)))
    → Text
    → List Text
    → Option (List (List Rational))
unfolding get_embedder
embed_texts load encode name [] = some []
embed_texts load encode name (t ∷ ts) = elim (get_embedder load name) [
  | none ↦ none
  | some m ↦ encode m (t ∷ ts)
]
