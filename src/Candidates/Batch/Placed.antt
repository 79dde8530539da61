-- ===== src/Candidates/Batch/Placed.antt =====
-- app/api/ingest.py: the status of the rows that `ingest_candidates` inserts.
use right_hire.Base.{
  ℕ, suc, ◌≡◌, refl, Bool, true, false, ◌&&◌, List, [], ◌∷◌, ◌++◌, length, none, some, Option, Text,
  lookup, is_empty, IsAmong, All, any, text, ◌==◌,
}
use right_hire.Store.{
  Candidate, Evaluation, pending, failed, queue_failed, Message, process_candidate, System, World,
}
use right_hire.Sheet.{Row, Cell}
use right_hire.Sheet.Rows.{shown}
use right_hire.Candidates.{Explains}
use right_hire.Candidates.Batch.{Readers, field_yoe, new_candidates}

abbrev pub asks_for : ℕ → ℕ → Message → Bool
asks_for c j (process_candidate i k) = i == c && k == j
asks_for c j _ = false

-- The candidate has failed, with an evaluation which says that it was not queued, or it is pending and the queue has the message for it.
pub data IsPlaced (job_id : ℕ) (s : System) (c : Candidate) : Type 0 where
  has_failed :
      c.status ≡ failed
      → (e : Evaluation) → IsAmong e s.evaluations
      → Explains c.id job_id queue_failed e
      → IsPlaced job_id s c
  is_queued : c.status ≡ pending → any (asks_for c.id job_id) s.queue ≡ true → IsPlaced job_id s c

pub All-pending :
    (w : World) (rd : Readers) (job_id n : ℕ) (rows : List Row)
    → All (λ c. c.status ≡ pending) (new_candidates w rd job_id n rows)
unfolding new_candidates
All-pending w rd job_id n [] = tt
All-pending w rd job_id n (row ∷ rows) = (refl, All-pending w rd job_id (suc n) rows)

-- `str(row.get(key, "")) or None`, of the cell.
abbrev pub HasText : Option Cell → Option Text → Type 0
HasText none o = o ≡ none
HasText (some cell) o =
    (is_empty (shown cell) ≡ true → o ≡ none)
    × (is_empty (shown cell) ≡ false → o ≡ some (shown cell))

-- The candidate of a row.
pub record FromRow (rd : Readers) (job_id : ℕ) (row : Row) (c : Candidate) : Type 0 where
  pub in_job : c.job_id ≡ job_id
  pub name : HasText (lookup (text "name") row) c.name
  pub email : HasText (lookup (text "email") row) c.email
  pub location : HasText (lookup (text "location") row) c.location
  pub resume_url : HasText (lookup (text "resume_url") row) c.resume_url
  pub yoe : c.yoe ≡ field_yoe rd row
  pub unread : c.resume_text ≡ none
  pub unparsed : c.parsed ≡ none
  pub untried : c.stale_retries ≡ 0

-- A candidate for each row, in order.
abbrev pub AllFrom : Readers → ℕ → List Row → List Candidate → Type 0
AllFrom rd job_id [] [] = Unit
AllFrom rd job_id [] (c ∷ cs) = ⊥
AllFrom rd job_id (row ∷ rows) [] = ⊥
AllFrom rd job_id (row ∷ rows) (c ∷ cs) = FromRow rd job_id row c × AllFrom rd job_id rows cs

-- One new candidate for each row, with what the row says, and each has its place.
abbrev pub AllPlaced : Readers → ℕ → List Row → System → System → Type 0
AllPlaced rd job_id rows s s' =
    (old new : List Candidate) × (s'.candidates ≡ old ++ new)
    × (length old ≡ length s.candidates)
    × AllFrom rd job_id rows new
    × All (IsPlaced job_id s') new
