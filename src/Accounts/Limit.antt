-- ===== src/Accounts/Limit.antt =====
-- app/api/auth.py: the table of attempts after `_check_signup_rate_limit`.
use right_hire.Base.{
  ℕ, suc, ◌≡◌, ◌≢◌, refl, ◌∙◌, ap, sym, inl, inr, Bool, List, [], ◌∷◌, ◌++◌, arith, length,
  length-append, Text, text_eq_iff, Dict, lookup, lookup_or, insert, lookup-insert, leb, ltb,
  select_where, count_where, length-select_where, Bool-cases, if◌then◌else◌,
}
use right_hire.Accounts.{in_window, recent, signup_max, check_signup_rate_limit}

-- How many attempts of the address lie in the window.
abbrev pub within : ℕ → Text → Dict (List ℕ) → ℕ
within now ip attempts = count_where (in_window now) (lookup_or ip [] attempts)

pub record Limited (now : ℕ) (ip : Text) (before : Dict (List ℕ)) (through : Bool)
    (after : Dict (List ℕ)) : Type 0 where
  pub decided : through ≡ ltb (within now ip before) signup_max
  pub kept :
      within now ip after ≡ (if through then suc (within now ip before) else within now ip before)
  pub only_recent : length (lookup_or ip [] after) ≡ within now ip after
  pub others : (other : Text) → ip ≢ other → lookup other after ≡ lookup other before

all_within :
    (now : ℕ) (ts : List ℕ)
    → count_where (in_window now) (select_where (in_window now) ts) ≡ count_where (in_window now) ts
all_within now [] = refl
all_within now (t ∷ ts) = ground (arith, all_within now ts)

count_where-snoc :
    (now : ℕ) (ts : List ℕ)
    → count_where (in_window now) (ts ++ now ∷ []) ≡ suc (count_where (in_window now) ts)
count_where-snoc now [] = ground arith
count_where-snoc now (t ∷ ts) = ground (arith, count_where-snoc now ts)

lookup_or-insert : (k : Text) (v : List ℕ) (d : Dict (List ℕ)) → lookup_or k [] (insert k v d) ≡ v
lookup_or-insert k v d = ground (arith, lookup-insert k k v d, text_eq_iff k k)

lookup-insert_other :
    (k j : Text) (v : List ℕ) (d : Dict (List ℕ)) → k ≢ j → lookup j (insert k v d) ≡ lookup j d
lookup-insert_other k j v d ne = ground (arith, lookup-insert k j v d, text_eq_iff k j)

-- An attempt is let through exactly if the address has fewer than five in the last hour; if it is, it
-- counts as one more, if not, it does not count; the table keeps the address's recent attempts and no
-- older ones, and those of the other addresses as they were.
pub check_signup_rate_limit-Limited :
    (now : ℕ) (ip : Text) (attempts : Dict (List ℕ))
    → let out = check_signup_rate_limit now ip attempts in Limited now ip attempts out.0 out.1
unfolding check_signup_rate_limit
check_signup_rate_limit-Limited now ip attempts =
    let kept = recent now ip attempts in
    let times = lookup_or ip [] attempts in
    let size = length-select_where (in_window now) times in
    elim (Bool-cases (leb signup_max (length kept))) [
      | inl t ↦ rw t (record {
        decided = ground (arith, size);
        kept =
            ap (count_where (in_window now)) (lookup_or-insert ip kept attempts)
            ∙ all_within now times;
        only_recent =
            ap length (lookup_or-insert ip kept attempts)
            ∙ size
            ∙ sym (
                ap (count_where (in_window now)) (lookup_or-insert ip kept attempts)
                ∙ all_within now times);
        others = λ other ne. lookup-insert_other ip other kept attempts ne;
      })
      | inr t ↦ rw t (record {
        decided = ground (arith, size);
        kept =
            ap (count_where (in_window now)) (lookup_or-insert ip (kept ++ now ∷ []) attempts)
            ∙ count_where-snoc now kept
            ∙ ap suc (all_within now times);
        only_recent =
            ap length (lookup_or-insert ip (kept ++ now ∷ []) attempts)
            ∙ omega (
              arith,
              length-append kept (now ∷ []),
              size,
              all_within now times,
              count_where-snoc now kept,
            )
            ∙ sym (
                ap (count_where (in_window now)) (lookup_or-insert ip (kept ++ now ∷ []) attempts));
        others = λ other ne. lookup-insert_other ip other (kept ++ now ∷ []) attempts ne;
      })
    ]
