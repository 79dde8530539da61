-- ===== src/Lifecycle.antt =====
-- The status column of app/models.py:Candidate as a machine of its own: what each kind of request or
-- task may do to the status of one candidate, and the board of all statuses.
pub mod Rows
pub mod Routes
pub mod Changes
pub mod Requests
pub mod Refined
pub mod Tasks
pub mod Uploads
pub mod Batches
use right_hire.Base.{ℕ, ◌≡◌, refl, ◌⊎◌, inl, inr, Option, none, some, List}
use right_hire.Store.{Candidate, CandidateStatus, pending, processing, done, failed}
use right_hire.Candidates.{find_candidate}
use mathlib.Core.Option

pub data Kind : Type 0 where
  upload retry cancel attach edit remove evaluate sweep other : Kind

pub data IsActive : CandidateStatus → Type 0 where
  waits : IsActive pending
  runs : IsActive processing

-- A candidate that is not there has no status.
pub data Move : Kind → Option CandidateStatus → Option CandidateStatus → Type 0 where
  queued : Move upload none (some pending)
  unsent : Move upload none (some failed)
  retried : Move retry (some failed) (some pending)
  cancelled : Move cancel (some pending) (some failed)
  attached : (a : CandidateStatus) → Move attach (some a) (some pending)
  removed : (a : CandidateStatus) → Move remove (some a) none
  judged : (a : CandidateStatus) → Move evaluate (some a) (some done)
  broken : (a : CandidateStatus) → Move evaluate (some a) (some failed)
  requeued : (a : CandidateStatus) → IsActive a → Move sweep (some a) (some pending)
  given_up : (a : CandidateStatus) → IsActive a → Move sweep (some a) (some failed)

-- The board: the status of each id, whatever the order of the rows and what else they hold.
abbrev pub Board : Type 0
Board = ℕ → Option CandidateStatus

abbrev pub board : List Candidate → Board
board cs i = Option.map (λ c. c.status) (find_candidate i cs)

-- One step of the machine: each candidate stays as it is, or makes a move of the step's kind.
abbrev pub Moves : Kind → Board → Board → Type 0
Moves k b b' = (i : ℕ) → (b' i ≡ b i) ⊎ Move k (b i) (b' i)
