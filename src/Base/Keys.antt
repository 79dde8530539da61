-- ===== src/Base/Keys.antt =====
-- Rows with distinct ids: a statement on `id in (ids of the selected rows)` is the statement on the
-- selected rows themselves.
use Prim.Native.Nat.{ℕ}
use mathlib.Core.Path.{◌≡◌, refl, sym, ap, subst, ◌∙◌}
use mathlib.Core.Bool.{Bool, true, false}
use mathlib.Core.List.{List, [], ◌∷◌, map}
use mathlib.Core.Logic.{inl, inr}
use native.Mathlib.Omega.{arith}
use mathlib.Core.Option.{Option, none, some}
use mathlib.Core.Option
use right_hire.Base.Booleans.{if◌then◌else◌, Bool-cases, ◌==◌, ==_self}
use right_hire.Base.Lists.{mem, All, All-both, All-map_imp}
use right_hire.Base.Tables.{first_where, select_where, delete_where, update_where}

abbrev pub Distinct : List ℕ → Type 0
Distinct [] = Unit
Distinct (x ∷ xs) = (mem x xs ≡ false) × Distinct xs

module _ {R : Type 0} (key : R → ℕ) (p : R → Bool) where
  abbrev pub selected_keys : List R → List ℕ
  selected_keys rs = map key (select_where p rs)

  mem-selected_keys_cons :
      (k : ℕ) (r : R) (rs : List R)
      → mem k (selected_keys rs) ≡ true
      → mem k (selected_keys (r ∷ rs)) ≡ true
  mem-selected_keys_cons k r rs h = ground arith

  mem-selected_keys_head :
      (r : R) (rs : List R) → p r ≡ true → mem (key r) (selected_keys (r ∷ rs)) ≡ true
  mem-selected_keys_head r rs h = rw h (ground (arith, ==_self (key r)))

  -- The key of a selected row is among the keys, distinct or not.
  pub All-selected_keys :
      (rs : List R) → All (λ r. p r ≡ true → mem (key r) (selected_keys rs) ≡ true) rs
  All-selected_keys [] = tt
  All-selected_keys (r ∷ rs) = (
    mem-selected_keys_head r rs,
    All-map_imp (λ x. p x ≡ true → mem (key x) (selected_keys rs) ≡ true)
        (λ x. p x ≡ true → mem (key x) (selected_keys (r ∷ rs)) ≡ true) rs
        (λ x h selected. mem-selected_keys_cons (key x) r rs (h selected)) (All-selected_keys rs),
  )

  not-mem-selected_keys :
      (k : ℕ) (rs : List R) → mem k (map key rs) ≡ false → mem k (selected_keys rs) ≡ false
  not-mem-selected_keys k [] h = h
  not-mem-selected_keys k (r ∷ rs) h = ground (arith, not-mem-selected_keys k rs)

  All-ne : (k : ℕ) (rs : List R) → mem k (map key rs) ≡ false → All (λ r. (key r == k) ≡ false) rs
  All-ne k [] h = tt
  All-ne k (r ∷ rs) h = (ground arith, All-ne k rs (ground arith))

  tail_agrees :
      (k : ℕ) (l : List ℕ) (rs : List R)
      → All (λ r. (key r == k) ≡ false) rs
      → All (λ r. mem (key r) l ≡ p r) rs
      → All (λ r. mem (key r) (k ∷ l) ≡ p r) rs
  tail_agrees k l [] h g = tt
  tail_agrees k l (r ∷ rs) h g = (ground arith, tail_agrees k l rs h.1 g.1)

  abbrev AgreesOn : R → List R → List ℕ → Type 0
  AgreesOn r rs l = (mem (key r) l ≡ p r) × All (λ x. mem (key x) l ≡ p x) rs

  selected_head :
      (r : R) (rs : List R) → p r ≡ true → select_where p (r ∷ rs) ≡ r ∷ select_where p rs
  selected_head r rs t = rw t

  unselected_head :
      (r : R) (rs : List R) → p r ≡ false → select_where p (r ∷ rs) ≡ select_where p rs
  unselected_head r rs t = rw t

  pub mem-selected_keys :
      (rs : List R) → Distinct (map key rs) → All (λ r. mem (key r) (selected_keys rs) ≡ p r) rs
  mem-selected_keys [] d = tt
  mem-selected_keys (r ∷ rs) d =
      let others = mem-selected_keys rs d.1 in
      elim (Bool-cases (p r)) [
        | inl t ↦
            subst (AgreesOn r rs) (sym (ap (map key) (selected_head r rs t))) (
              ground arith,
              tail_agrees (key r) (selected_keys rs) rs (All-ne (key r) rs d.0) others,
            )
        | inr t ↦
            subst (AgreesOn r rs) (sym (ap (map key) (unselected_head r rs t)))
              (not-mem-selected_keys (key r) rs d.0 ∙ sym t, others)
      ]

module _ {R : Type 0} (p q : R → Bool) where
  pub update_where_congr :
      (f : R → R) (rs : List R)
      → All (λ r. q r ≡ p r) rs
      → update_where q f rs ≡ update_where p f rs
  update_where_congr f [] h = refl
  update_where_congr f (r ∷ rs) h = rw (h.0, update_where_congr f rs h.1)

  pub delete_where_congr :
      (rs : List R) → All (λ r. q r ≡ p r) rs → delete_where q rs ≡ delete_where p rs
  delete_where_congr [] h = refl
  delete_where_congr (r ∷ rs) h = rw (h.0, delete_where_congr rs h.1)

-- `update ... where id in (select id ... where p)` is `update ... where p`.
pub update_where-selected :
    {R : Type 0} (key : R → ℕ) (p : R → Bool) (f : R → R) (rs : List R)
    → Distinct (map key rs)
    → update_where (λ r. mem (key r) (selected_keys key p rs)) f rs ≡ update_where p f rs
update_where-selected key p f rs d =
    update_where_congr p (λ r. mem (key r) (selected_keys key p rs)) f rs
      (mem-selected_keys key p rs d)

-- What a lookup by key finds after a row was changed or deleted by its key.
module _ {R : Type 0} (key : R → ℕ) where
  abbrev pub at_key : ℕ → R → Bool
  at_key i r = key r == i

  pub first_where-update_at :
      (i j : ℕ) (f : R → R) (rs : List R)
      → ((r : R) → key (f r) ≡ key r)
      → first_where (at_key j) (update_where (at_key i) f rs)
        ≡ (if j == i then Option.map f (first_where (at_key j) rs) else first_where (at_key j) rs)
  first_where-update_at i j f [] keeps = ground arith
  first_where-update_at i j f (r ∷ rs) keeps =
      ground (arith, keeps r, first_where-update_at i j f rs keeps)

  pub first_where-delete_at :
      (i j : ℕ) (rs : List R)
      → first_where (at_key j) (delete_where (at_key i) rs)
        ≡ (if j == i then none else first_where (at_key j) rs)
  first_where-delete_at i j [] = ground arith
  first_where-delete_at i j (r ∷ rs) = ground (arith, first_where-delete_at i j rs)

  -- After an update that keeps the keys, whichever rows it selects.
  pub first_where-update_where :
      (j : ℕ) (p : R → Bool) (f : R → R) (rs : List R)
      → ((r : R) → key (f r) ≡ key r)
      → first_where (at_key j) (update_where p f rs)
        ≡ Option.map (λ r. if p r then f r else r) (first_where (at_key j) rs)
  first_where-update_where j p f [] keeps = refl
  first_where-update_where j p f (r ∷ rs) keeps =
      ground (arith, keeps r, first_where-update_where j p f rs keeps)

  not_found :
      (j : ℕ) (p : R → Bool) (rs : List R)
      → mem j (map key rs) ≡ false
      → first_where (at_key j) (delete_where p rs) ≡ none
  not_found j p [] h = refl
  not_found j p (r ∷ rs) h = ground (arith, not_found j p rs)

  abbrev pub unless : (R → Bool) → Option R → Option R
  unless p none = none
  unless p (some r) = if p r then none else some r

  -- With distinct keys a row is gone exactly if the deletion selects it.
  pub first_where-delete_where :
      (j : ℕ) (p : R → Bool) (rs : List R)
      → Distinct (map key rs)
      → first_where (at_key j) (delete_where p rs) ≡ unless p (first_where (at_key j) rs)
  first_where-delete_where j p [] d = refl
  first_where-delete_where j p (r ∷ rs) d =
      ground (arith, first_where-delete_where j p rs d.1, not_found j p rs)

  -- With distinct keys a lookup by a row's key finds the row.
  pub All-first_where :
      (rs : List R) → Distinct (map key rs) → All (λ r. first_where (at_key (key r)) rs ≡ some r) rs
  All-first_where [] d = tt
  All-first_where (r ∷ rs) d = (
    ground (arith, ==_self (key r)),
    All-map_imp (λ x. ((key x == key r) ≡ false) × (first_where (at_key (key x)) rs ≡ some x))
        (λ x. first_where (at_key (key x)) (r ∷ rs) ≡ some x) rs (λ x h. ground arith)
        (All-both (λ x. (key x == key r) ≡ false) (λ x. first_where (at_key (key x)) rs ≡ some x) rs
          (All-ne key (λ _. true) (key r) rs d.0) (All-first_where rs d.1)),
  )
