-- ===== src/Queue.antt =====
-- `queue.enqueue` and app/api/ingest.py:_enqueue_candidates. Whether Redis takes a message is the
-- world's answer to the number of the attempt.
pub mod Laws
use right_hire.Base.{ℕ, suc, Bool, true, false, List, [], ◌∷◌, ◌++◌, if◌then◌else◌}
use right_hire.Store.{System, World, Message, process_candidate}

unfoldable pub enqueue : World → Message → System → Bool × System
enqueue w m s = elim (w.accepts s.attempts) [
  | true ↦ (true, record s { queue = s.queue ++ m ∷ []; attempts = suc s.attempts })
  | false ↦ (false, record s { attempts = suc s.attempts })
]

-- The loop, over what it has put into `queued` and `failed`.
enqueue_from :
    World
    → ℕ
    → List ℕ
    → List ℕ
    → List ℕ
    → System
    → record { queued : List ℕ; failed : List ℕ; after : System }
enqueue_from w job_id [] queued failed s = record { queued = queued; failed = failed; after = s }
enqueue_from w job_id (cid ∷ ids) queued failed s =
    let (sent, s') = enqueue w (process_candidate cid job_id) s in
    enqueue_from w job_id ids (if sent then queued ++ cid ∷ [] else queued)
      (if sent then failed else failed ++ cid ∷ []) s'

unfoldable pub enqueue_candidates :
    World → ℕ → List ℕ → System → record { queued : List ℕ; failed : List ℕ; after : System }
unfolding enqueue_from enqueue
enqueue_candidates w job_id ids s = enqueue_from w job_id ids [] [] s
