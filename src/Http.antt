-- ===== src/Http.antt =====
-- A request handler: it changes the system, and returns or raises an `HTTPException`, of which the
-- status code is kept. What was committed before a raise stays.
pub mod Reads
use right_hire.Base.{ℕ, Bool, true, false, Option, none, some}
use right_hire.Store.{System}

pub data Result {ℓ} (A : Type ℓ) : Type ℓ where
  ok : A → Result A
  err : ℕ → Result A

abbrev pub Handler : Type 0 → Type 0
Handler A = System → Result A × System

module _ {A : Type 0} where
  abbrev pub pure : A → Handler A
  pure a s = (ok a, s)

  abbrev pub raise : ℕ → Handler A
  raise e s = (err e, s)

  abbrev pub gets : (System → A) → Handler A
  gets f s = (ok (f s), s)

abbrev pub modify : (System → System) → Handler (Unit {0})
modify f s = (ok tt, f s)

infixl 5 ◌>>=◌ ◌>>◌
abbrev pub ◌>>=◌ : {A B : Type 0} → Handler A → (A → Handler B) → Handler B
◌>>=◌ m f s = let (r, s') = m s in elim r [ ok a ↦ f a s' | err e ↦ (err e, s') ]

abbrev pub ◌>>◌ : {A B : Type 0} → Handler A → Handler B → Handler B
m >> k = m >>= λ _. k

-- `if condition: raise HTTPException(status)`
abbrev pub raise_if : Bool → ℕ → Handler (Unit {0})
raise_if true e s = (err e, s)
raise_if false e s = (ok tt, s)

-- The value, or the exception if there is none.
abbrev pub or_raise : {A : Type 0} → Option A → ℕ → Handler A
or_raise none e s = (err e, s)
or_raise (some a) e s = (ok a, s)
