-- ===== src/Llm/Local/Embedded.antt =====
-- app/llm/local.py: what `embed` returns.
use right_hire.Base.{
  ℕ, zero, suc, ◌+◌, ◌≤◌, ◌<◌, ◌≡◌, refl, ◌∙◌, ap, sym, inl, inr, Option, List, [], ◌∷◌, arith,
  length, Text,
}
use native.Mathlib.Nat.{eq-or-lt_of_le}
use right_hire.Llm.{Try, returned, unavailable, raised, got, lacks, broke, Try-cases}
use right_hire.Llm.Retry.{End, value, gave_up, passed_on}
use right_hire.Llm.Retry.Decisive.{IsUnavailable}
use right_hire.Llm.Local.{max_retries, loop_from, Vector, embed_from, cons_value}

-- What the tries from one number to another gave, by how their loop ended.
abbrev pub Explained : {A : Type 0} → (ℕ → Try A) → ℕ → ℕ → End A → Type 0
Explained once first last (value a) = (k : ℕ) × (first ≤ k) × (k ≤ last) × (once k ≡ returned a)
Explained once first last gave_up = (k : ℕ) → first ≤ k → k ≤ last → IsUnavailable (once k)
Explained once first last passed_on = (k : ℕ) × (first ≤ k) × (k ≤ last) × (once k ≡ raised)

module _ {A : Type 0} (once : ℕ → Try A) where
  later :
      (n last : ℕ) (after : Option _) (e : End A)
      → once n ≡ unavailable after
      → Explained once (suc n) last e
      → Explained once n last e
  later n last after (value a) f (k, from, to, h) = (k, omega arith, to, h)
  later n last after passed_on f (k, from, to, h) = (k, omega arith, to, h)
  later n last after gave_up f h = λ k from to. elim (eq-or-lt_of_le from) [
    | inl e ↦ (after, ap once (sym e) ∙ f)
    | inr l ↦ h k l to
  ]

  only :
      (n last : ℕ) (after : Option _)
      → n ≡ last
      → once n ≡ unavailable after
      → Explained once n last gave_up
  only n last after h f = λ k from to. (after, ap once (omega arith) ∙ f)

  loop_from-Explained :
      (left n last : ℕ) → n + left ≡ last → Explained once n last (loop_from once left n).end
  unfolding loop_from
  loop_from-Explained zero n last h = elim (Try-cases (once n)) [
    | got a f ↦ rw (loop_from, f) (n, omega arith, omega arith, f)
    | lacks after f ↦ rw (loop_from, f) (only n last after (omega arith) f)
    | broke f ↦ rw (loop_from, f) (n, omega arith, omega arith, f)
  ]
  loop_from-Explained (suc left) n last h = elim (Try-cases (once n)) [
    | got a f ↦ rw (loop_from, f) (n, omega arith, omega arith, f)
    | lacks after f ↦
        rw (loop_from, f)
          (later n last after (loop_from once left (suc n)).end f
            (loop_from-Explained left (suc n) last (omega arith)))
    | broke f ↦ rw (loop_from, f) (n, omega arith, omega arith, f)
  ]

-- One vector for each text, in their order, each returned for its text within the tries.
abbrev pub Embeds : (ℕ → ℕ → Try Vector) → ℕ → List Text → List Vector → Type 0
Embeds once i [] [] = Unit
Embeds once i [] (v ∷ vs) = ⊥
Embeds once i (t ∷ texts) [] = ⊥
Embeds once i (t ∷ texts) (v ∷ vs) =
    Explained (once i) 1 max_retries (value v) × Embeds once (suc i) texts vs

-- The vectors of all texts; or the text that ended the call, by the tries for it.
abbrev pub Outcome : (ℕ → ℕ → Try Vector) → ℕ → List Text → End (List Vector) → Type 0
Outcome once i texts (value vs) = Embeds once i texts vs
Outcome once i texts gave_up =
    (j : ℕ) × (i ≤ j) × (j < i + length texts) × Explained (once j) 1 max_retries gave_up
Outcome once i texts passed_on =
    (j : ℕ) × (i ≤ j) × (j < i + length texts) × Explained (once j) 1 max_retries passed_on

module _ (once : ℕ → ℕ → Try Vector) where
  cons_value-Outcome :
      (i : ℕ) (t : Text) (texts : List Text) (v : Vector) (e : End (List Vector))
      → Explained (once i) 1 max_retries (value v)
      → Outcome once (suc i) texts e
      → Outcome once i (t ∷ texts) (cons_value v e)
  cons_value-Outcome i t texts v (value vs) h k = (h, k)
  cons_value-Outcome i t texts v gave_up h (j, from, to, k) = (j, omega arith, omega arith, k)
  cons_value-Outcome i t texts v passed_on h (j, from, to, k) = (j, omega arith, omega arith, k)

  next-Outcome :
      (i : ℕ) (t : Text) (texts : List Text) (e : End Vector) (rest : End (List Vector))
      → Explained (once i) 1 max_retries e
      → Outcome once (suc i) texts rest
      → Outcome once i
          (t ∷ texts)
          (elim e [ value v ↦ cons_value v rest | gave_up ↦ gave_up | passed_on ↦ passed_on ])
  next-Outcome i t texts (value v) rest h k = cons_value-Outcome i t texts v rest h k
  next-Outcome i t texts gave_up rest h k = (i, omega arith, omega arith, h)
  next-Outcome i t texts passed_on rest h k = (i, omega arith, omega arith, h)

  -- The call returns one vector for each text, in their order, each one an answer for its text
  -- within three tries; or it gives up at a text for which three tries were unavailable; or it
  -- passes on what a try for a text raised.
  pub embed_from-Outcome :
      (i : ℕ) (texts : List Text) → Outcome once i texts (embed_from once i texts)
  unfolding embed_from
  embed_from-Outcome i [] = tt
  embed_from-Outcome i (t ∷ texts) =
      next-Outcome i t texts (loop_from (once i) 2 1).end (embed_from once (suc i) texts)
        (loop_from-Explained (once i) 2 1 max_retries refl) (embed_from-Outcome (suc i) texts)
