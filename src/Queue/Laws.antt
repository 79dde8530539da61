-- ===== src/Queue/Laws.antt =====
-- app/api/ingest.py:_enqueue_candidates: lemmas on the loop, its two lists and the queue.
use right_hire.Base.{
  ℕ, suc, ◌+◌, ◌≡◌, refl, ◌∙◌, inl, inr, true, false, ◌||◌, Bool-cases, List, [], ◌∷◌, ◌++◌, map,
  arith, length, mem, All, Parts, no_items, to_first, to_second, append-nil, append_assoc,
  if◌then◌else◌,
}
use right_hire.Store.{System, World, Message, process_candidate}
use right_hire.Queue.{enqueue, enqueue_from, enqueue_candidates}

-- The ids that attempt number `n` and those after it get through, and the others.
pub accepted : World → ℕ → List ℕ → List ℕ
accepted w n [] = []
accepted w n (c ∷ ids) = if w.accepts n then c ∷ accepted w (suc n) ids else accepted w (suc n) ids

pub refused : World → ℕ → List ℕ → List ℕ
refused w n [] = []
refused w n (c ∷ ids) = if w.accepts n then refused w (suc n) ids else c ∷ refused w (suc n) ids

-- Each id is on one of the two lists.
pub Parts-accepted :
    (w : World) (n : ℕ) (ids : List ℕ) → Parts ids (accepted w n ids) (refused w n ids)
unfolding accepted refused
Parts-accepted w n [] = no_items
Parts-accepted w n (c ∷ ids) = elim (Bool-cases (w.accepts n)) [
  | inl e ↦ rw (accepted, refused, e) (to_first (Parts-accepted w (suc n) ids))
  | inr e ↦ rw (accepted, refused, e) (to_second (Parts-accepted w (suc n) ids))
]

abbrev pub sent_to : ℕ → List ℕ → List Message
sent_to job_id ids = map (λ c. process_candidate c job_id) ids

abbrev pub after_sending : World → ℕ → List ℕ → System → System
after_sending w job_id ids s = record s {
  queue = s.queue ++ sent_to job_id (accepted w s.attempts ids);
  attempts = s.attempts + length ids;
}

abbrev pub after_one : Message → System → System
after_one m s = record s { queue = s.queue ++ m ∷ []; attempts = suc s.attempts }

pub enqueue_sent :
    (w : World) (m : Message) (s : System)
    → w.accepts s.attempts ≡ true
    → enqueue w m s ≡ (true, after_one m s)
unfolding enqueue
enqueue_sent w m s e = rw (e, enqueue)

pub enqueue_lost :
    (w : World) (m : Message) (s : System)
    → w.accepts s.attempts ≡ false
    → enqueue w m s ≡ (false, record s { attempts = suc s.attempts })
unfolding enqueue
enqueue_lost w m s e = rw (e, enqueue)

enqueue_from_lem :
    (w : World) (job_id : ℕ) (ids queued failed : List ℕ) (s : System)
    → enqueue_from w job_id ids queued failed s ≡ record {
      queued = queued ++ accepted w s.attempts ids;
      failed = failed ++ refused w s.attempts ids;
      after = after_sending w job_id ids s;
    }
unfolding enqueue_from accepted refused
enqueue_from_lem w job_id [] queued failed s = simp append-nil (ground arith)
enqueue_from_lem w job_id (c ∷ ids) queued failed s =
    let m = process_candidate c job_id in
    elim (Bool-cases (w.accepts s.attempts)) [
      | inl e ↦
          rw (enqueue_sent w m s e, e)
            (enqueue_from_lem w job_id ids (queued ++ c ∷ []) failed (after_one m s)
              ∙ simp append_assoc (ground arith))
      | inr e ↦
          rw (enqueue_lost w m s e, e)
            (enqueue_from_lem w job_id ids queued (failed ++ c ∷ [])
                (record s { attempts = suc s.attempts })
              ∙ simp append_assoc (ground arith))
    ]

-- The loop in closed form.
pub enqueue_candidates_lem :
    (w : World) (job_id : ℕ) (ids : List ℕ) (s : System)
    → enqueue_candidates w job_id ids s ≡ record {
      queued = accepted w s.attempts ids;
      failed = refused w s.attempts ids;
      after = after_sending w job_id ids s;
    }
unfolding enqueue_candidates
enqueue_candidates_lem w job_id ids s = enqueue_from_lem w job_id ids [] [] s

-- No id is lost and none is counted twice.
pub length-accepted-refused :
    (w : World) (n : ℕ) (ids : List ℕ)
    → length (accepted w n ids) + length (refused w n ids) ≡ length ids
unfolding accepted refused
length-accepted-refused w n [] = omega arith
length-accepted-refused w n (c ∷ ids) = ground (arith, length-accepted-refused w (suc n) ids)

pub mem-accepted-refused :
    (w : World) (n c : ℕ) (ids : List ℕ)
    → mem c ids ≡ (mem c (accepted w n ids) || mem c (refused w n ids))
unfolding accepted refused
mem-accepted-refused w n c [] = refl
mem-accepted-refused w n c (d ∷ ids) = ground (arith, mem-accepted-refused w (suc n) c ids)

-- A single id, sent or lost.
pub enqueue_one_sent :
    (w : World) (job_id c : ℕ) (s : System)
    → w.accepts s.attempts ≡ true
    → enqueue_candidates w job_id (c ∷ []) s
      ≡ record { queued = c ∷ []; failed = []; after = after_one (process_candidate c job_id) s }
unfolding enqueue_candidates
enqueue_one_sent w job_id c s e = rw (enqueue_sent w (process_candidate c job_id) s e)

pub enqueue_one_lost :
    (w : World) (job_id c : ℕ) (s : System)
    → w.accepts s.attempts ≡ false
    → enqueue_candidates w job_id (c ∷ []) s
      ≡ record { queued = []; failed = c ∷ []; after = record s { attempts = suc s.attempts } }
unfolding enqueue_candidates
enqueue_one_lost w job_id c s e = rw (enqueue_lost w (process_candidate c job_id) s e)

pub All-refused :
    (P : ℕ → Type 0) (w : World) (n : ℕ) (ids : List ℕ) → All P ids → All P (refused w n ids)
unfolding refused
All-refused P w n [] h = tt
All-refused P w n (i ∷ ids) h = elim (Bool-cases (w.accepts n)) [
  | inl t ↦ rw t (All-refused P w (suc n) ids h.1)
  | inr t ↦ rw t (h.0, All-refused P w (suc n) ids h.1)
]

pub mem-refused : (w : World) (n i : ℕ) (l : List ℕ) → mem i (refused w n l) ≡ true → mem i l ≡ true
unfolding refused
mem-refused w n i [] h = h
mem-refused w n i (x ∷ l) h = ground (arith, mem-refused w (suc n) i l)
