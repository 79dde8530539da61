-- ===== src/Base/Tables.antt =====
-- A database table as the list of its rows, with the statements that the program issues.
use Prim.Native.Nat.{ℕ, suc, ◌+◌}
use mathlib.Core.Path.{◌≡◌, refl, ap, subst}
use mathlib.Core.Logic.{inl, inr}
use mathlib.Core.Bool.{Bool, true, false}
use mathlib.Core.Option.{Option, none, some}
use mathlib.Core.List.{List, [], ◌∷◌, ◌++◌}
use native.Mathlib.Omega.{arith}
use right_hire.Base.Booleans.{if◌then◌else◌, Bool-cases}
use right_hire.Base.Lists.{any, length, All}

module _ {ℓ} {R : Type ℓ} where
  -- `db.get(...)` and `scalar_one_or_none()`: the first row that fits.
  abbrev pub first_where : (R → Bool) → List R → Option R
  first_where p [] = none
  first_where p (r ∷ rs) = if p r then some r else first_where p rs

  -- `select(...).where(p)`
  abbrev pub select_where : (R → Bool) → List R → List R
  select_where p [] = []
  select_where p (r ∷ rs) = if p r then r ∷ select_where p rs else select_where p rs

  -- `delete(...).where(p)`
  abbrev pub delete_where : (R → Bool) → List R → List R
  delete_where p [] = []
  delete_where p (r ∷ rs) = if p r then delete_where p rs else r ∷ delete_where p rs

  -- `update(...).where(p).values(...)`, and the flush of a loaded row's changes.
  abbrev pub update_where : (R → Bool) → (R → R) → List R → List R
  update_where p f [] = []
  update_where p f (r ∷ rs) = (if p r then f r else r) ∷ update_where p f rs

  abbrev pub count_where : (R → Bool) → List R → ℕ
  count_where p [] = 0
  count_where p (r ∷ rs) = if p r then suc (count_where p rs) else count_where p rs

  pub length-select_where :
      (p : R → Bool) (rs : List R) → length (select_where p rs) ≡ count_where p rs
  length-select_where p [] = refl
  length-select_where p (r ∷ rs) = ground (arith, length-select_where p rs)

  pub count_where-append :
      (p : R → Bool) (rs ss : List R)
      → count_where p (rs ++ ss) ≡ count_where p rs + count_where p ss
  count_where-append p [] ss = omega arith
  count_where-append p (r ∷ rs) ss = ground (arith, count_where-append p rs ss)

  -- No row that fits is left.
  pub count_where-delete_where :
      (p : R → Bool) (rs : List R) → count_where p (delete_where p rs) ≡ 0
  count_where-delete_where p [] = refl
  count_where-delete_where p (r ∷ rs) = ground (arith, count_where-delete_where p rs)

  pub All-delete_where {κ} :
      (P : R → Type κ) (p : R → Bool) (rs : List R) → All P rs → All P (delete_where p rs)
  All-delete_where P p [] h = tt
  All-delete_where P p (r ∷ rs) h = ground (arith, All-delete_where P p rs h.1)

  pub All-select_where {κ} :
      (P : R → Type κ) (p : R → Bool) (rs : List R) → All P rs → All P (select_where p rs)
  All-select_where P p [] h = tt
  All-select_where P p (r ∷ rs) h = ground (arith, All-select_where P p rs h.1)

  pub first_where-append :
      (p : R → Bool) (rs ss : List R)
      → first_where p (rs ++ ss)
        ≡ elim (first_where p rs) [ some r ↦ some r | none ↦ first_where p ss ]
  first_where-append p [] ss = refl
  first_where-append p (r ∷ rs) ss = ground (arith, first_where-append p rs ss)

  pub update_where-append :
      (p : R → Bool) (f : R → R) (rs ss : List R)
      → update_where p f (rs ++ ss) ≡ update_where p f rs ++ update_where p f ss
  update_where-append p f [] ss = refl
  update_where-append p f (r ∷ rs) ss = rw (update_where-append p f rs ss)

  pub length-update_where :
      (p : R → Bool) (f : R → R) (rs : List R) → length (update_where p f rs) ≡ length rs
  length-update_where p f [] = refl
  length-update_where p f (r ∷ rs) = ap suc (length-update_where p f rs)

  pub count_where-update_where :
      (p : R → Bool) (f : R → R) (rs : List R)
      → ((r : R) → p (f r) ≡ false)
      → count_where p (update_where p f rs) ≡ 0
  count_where-update_where p f [] h = refl
  count_where-update_where p f (r ∷ rs) h = ground (arith, h r, count_where-update_where p f rs h)

  pub first_where_holds :
      (p : R → Bool) (rs : List R) (r : R) → first_where p rs ≡ some r → p r ≡ true
  first_where_holds p [] r h = cc
  first_where_holds p (x ∷ rs) r h = ground (arith, first_where_holds p rs r)

  pub first_where-All {κ} :
      (P : R → Type κ) (p : R → Bool) (rs : List R) (r : R)
      → All P rs
      → first_where p rs ≡ some r
      → P r
  first_where-All P p [] r h e = absurd cc
  first_where-All P p (x ∷ rs) r h e = elim (Bool-cases (p x)) [
    | inl t ↦ let same : x ≡ r = ground arith in subst P same h.0
    | inr t ↦ first_where-All P p rs r h.1 (ground arith)
  ]

  -- The rows that a select finds fit.
  pub All-select_where_holds :
      (p : R → Bool) (rs : List R) → All (λ r. p r ≡ true) (select_where p rs)
  All-select_where_holds p [] = tt
  All-select_where_holds p (r ∷ rs) = ground (arith, All-select_where_holds p rs)

  All-if_cons {κ} :
      (P : R → Type κ) (r : R) (rs : List R) (b : Bool)
      → All P (if b then r ∷ rs else rs)
      → (b ≡ true → P r) × All P rs
  All-if_cons P r rs true h = (λ _. h.0, h.1)
  All-if_cons P r rs false h = (λ e. absurd cc, h)

  -- What holds of the selected rows holds of all rows that fit.
  pub select_where-All {κ} :
      (P : R → Type κ) (p : R → Bool) (rs : List R)
      → All P (select_where p rs)
      → All (λ r. p r ≡ true → P r) rs
  select_where-All P p [] h = tt
  select_where-All P p (r ∷ rs) h =
      let cases = All-if_cons P r (select_where p rs) (p r) h in
      (cases.0, select_where-All P p rs cases.1)

  holds_if {κ} : (P : R → Type κ) (r x : R) (b : Bool) → P r → P x → P (if b then r else x)
  holds_if P r x true h k = h
  holds_if P r x false h k = k

  pub All-update_where {κ} :
      (P : R → Type κ) (p : R → Bool) (f : R → R) (rs : List R)
      → ((r : R) → P r → P (f r))
      → All P rs
      → All P (update_where p f rs)
  All-update_where P p f [] keeps h = tt
  All-update_where P p f (r ∷ rs) keeps h =
      (holds_if P (f r) r (p r) (keeps r h.0) h.0, All-update_where P p f rs keeps h.1)

  -- An update that a test does not see.
  pub any-update_where :
      (q p : R → Bool) (f : R → R) (rs : List R)
      → ((r : R) → q (f r) ≡ q r)
      → any q (update_where p f rs) ≡ any q rs
  any-update_where q p f [] h = refl
  any-update_where q p f (r ∷ rs) h = ground (arith, h r, any-update_where q p f rs h)
