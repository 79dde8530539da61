-- ===== src/Llm/Limiter/Window.antt =====
-- app/llm/_openai_compatible.py: how many calls lie in one window of `_RateLimiter`.
use right_hire.Base.{
  ℕ, ◌+◌, ◌-◌, ◌≤◌, ◌<◌, ◌≡◌, refl, ◌∙◌, ap, sym, inl, inr, Bool, List, [], ◌∷◌, ◌++◌, arith,
  length, length-append, append_assoc, All, All-append, All-map_imp, ltb, leb, count_where,
  count_where-append, Bool-cases,
}
use right_hire.Base.Int.{ℤ}
use right_hire.Llm.Limiter.{window, Clock, at_least_one, pop_old, pause, waited, wait}

-- Each reading is later than the one before, and a sleep ends after its time.
pub record Advances (k : Clock) : Type 0 where
  pub wakes : (d : ℕ) → k.now + d < k.woken d
  pub stamps : (t : ℕ) → t ≤ k.stamped t

-- A process makes one call after the other, each after its wait: the log of all calls, the deque, and
-- the time of the last call.
pub data Calls (limit : ℤ) : List ℕ → List ℕ → ℕ → Type 0 where
  start : Calls limit [] [] 0
  call :
      (k : Clock) {log calls : List ℕ} {last : ℕ}
      → Calls limit log calls last
      → Advances k
      → last ≤ k.now
      → Calls limit
          (log ++ (waited k limit calls).stamp ∷ [])
          (wait k limit calls)
          (waited k limit calls).stamp

-- The calls of the window that ends at a time.
abbrev pub in_window : ℕ → ℕ → Bool
in_window now c = leb now (c + window)

record Popped (now : ℕ) (calls kept : List ℕ) : Type 0 where
  dropped : List ℕ
  split : calls ≡ dropped ++ kept
  old : All (λ c. c + window < now) dropped
  short : length kept ≤ length calls

pop_old-Popped : (now : ℕ) (calls : List ℕ) → Popped now calls (pop_old now calls)
unfolding pop_old
pop_old-Popped now [] = record { dropped = []; split = refl; old = tt; short = omega arith }
pop_old-Popped now (c ∷ calls) = elim (Bool-cases (ltb (c + window) now)) [
  | inl t ↦
      let rest = pop_old-Popped now calls in
      rw (pop_old, t)
        (record {
          dropped = c ∷ rest.dropped;
          split = ap (λ l. c ∷ l) rest.split;
          old = (ground arith, rest.old);
          short = omega (arith, rest.short);
        })
  | inr t ↦ rw (pop_old, t) (record { dropped = []; split = refl; old = tt; short = omega arith })
]

-- After the pause the oldest call is dropped.
pop_old-after_pause :
    (now t : ℕ) (calls : List ℕ)
    → now + pause now calls < t
    → length (pop_old t calls) ≤ length calls - 1
unfolding pop_old
pop_old-after_pause now t [] h = omega arith
pop_old-after_pause now t (c ∷ calls) h = elim (Bool-cases (ltb (c + window) t)) [
  | inl e ↦ rw (pop_old, e) (omega (arith, (pop_old-Popped t calls).short))
  | inr e ↦ absurd (ground arith)
]

-- The log is what was dropped and what is in the deque; what was dropped is out of the window.
record Logged (limit now : ℕ) (log calls : List ℕ) : Type 0 where
  gone : List ℕ
  split : log ≡ gone ++ calls
  old : All (λ c. c + window < now) gone
  few : length calls ≤ limit

older : (s t : ℕ) (l : List ℕ) → s ≤ t → All (λ c. c + window < s) l → All (λ c. c + window < t) l
older s t l h = All-map_imp (λ c. c + window < s) (λ c. c + window < t) l (λ c k. omega arith)

Logged-pop_old :
    (limit now t : ℕ) (log calls : List ℕ)
    → now ≤ t
    → Logged limit now log calls
    → Logged limit t log (pop_old t calls)
Logged-pop_old limit now t log calls h l =
    let p = pop_old-Popped t calls in
    record {
      gone = l.gone ++ p.dropped;
      split =
          l.split
          ∙ ap (λ k. l.gone ++ k) p.split
          ∙ sym (append_assoc l.gone p.dropped (pop_old t calls));
      old = All-append (λ c. c + window < t) l.gone p.dropped (older now t l.gone h l.old) p.old;
      few = omega (arith, p.short, l.few);
    }

Logged-snoc :
    (limit now t : ℕ) (log calls : List ℕ)
    → now ≤ t
    → length calls < limit
    → Logged limit now log calls
    → Logged limit t (log ++ t ∷ []) (calls ++ t ∷ [])
Logged-snoc limit now t log calls h few l = record {
  gone = l.gone;
  split = ap (λ k. k ++ t ∷ []) l.split ∙ append_assoc l.gone calls (t ∷ []);
  old = older now t l.gone h l.old;
  few = omega (arith, length-append calls (t ∷ []));
}

positive : (limit : ℤ) → 0 < at_least_one limit
positive limit = ground arith

module _ (limit : ℤ) (k : Clock) (adv : Advances k) (log calls : List ℕ) (last : ℕ)
    (since : last ≤ k.now) (l : Logged (at_least_one limit) last log calls) where
  waited-Logged :
      Logged
        (at_least_one limit)
        (waited k limit calls).stamp
        (log ++ (waited k limit calls).stamp ∷ [])
        (wait k limit calls)
  unfolding wait waited
  waited-Logged =
      let kept = pop_old k.now calls in
      let l' = Logged-pop_old (at_least_one limit) last k.now log calls since l in
      elim (Bool-cases (ltb (length kept) (at_least_one limit))) [
        | inl free ↦ rw free (
            Logged-snoc (at_least_one limit) k.now (k.stamped k.now) log kept (adv.stamps k.now)
              (ground arith) l')
        | inr full ↦
            let t = k.woken (pause k.now kept) in
            let slept = adv.wakes (pause k.now kept) in
            let l'' = Logged-pop_old (at_least_one limit) k.now t log kept (omega arith) l' in
            rw full (
              Logged-snoc (at_least_one limit) t (k.stamped t) log (pop_old t kept) (adv.stamps t)
                (omega (arith, pop_old-after_pause k.now t kept slept, l'.few, positive limit)) l'')
      ]

Calls-Logged :
    (limit : ℤ) {log calls : List ℕ} {last : ℕ}
    → Calls limit log calls last
    → Logged (at_least_one limit) last log calls
Calls-Logged limit start = record {
  gone = [];
  split = refl;
  old = tt;
  few = omega (arith, positive limit);
}
Calls-Logged limit (call k {log} {calls} {last} before adv since) =
    waited-Logged limit k adv log calls last since (Calls-Logged limit before)

none_in_window :
    (now : ℕ) (l : List ℕ) → All (λ c. c + window < now) l → count_where (in_window now) l ≡ 0
none_in_window now [] h = refl
none_in_window now (c ∷ l) h = ground (arith, none_in_window now l h.1)

count_where-le : (now : ℕ) (l : List ℕ) → count_where (in_window now) l ≤ length l
count_where-le now [] = omega arith
count_where-le now (c ∷ l) = ground (arith, count_where-le now l)

-- However often the limiter is asked, and however long its sleeps take, at every call the log has no
-- more calls within the last 60 seconds than the limit, or one where the limit is less; the clock is
-- to advance between two readings.
pub Calls_limited :
    (limit : ℤ) (log calls : List ℕ) (last : ℕ)
    → Calls limit log calls last
    → count_where (in_window last) log ≤ at_least_one limit
Calls_limited limit log calls last made =
    let l = Calls-Logged limit made in
    omega (
      arith,
      ap (count_where (in_window last)) l.split,
      count_where-append (in_window last) l.gone calls,
      none_in_window last l.gone l.old,
      count_where-le last calls,
      l.few,
    )
