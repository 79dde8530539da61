-- ===== src/Http/Reads.antt =====
-- Parts of a handler that leave the system as it is: the checks before the first write.
use right_hire.Base.{ℕ, ◌≡◌, refl, ap, ◌∙◌, Bool, true, false, Option, none, some, if◌then◌else◌}
use right_hire.Store.{System}
use right_hire.Http.{Result, ok, err, Handler, pure, raise, raise_if, or_raise, ◌>>=◌}

-- However it ends, `m` changes nothing.
pub record Reads {A : Type 0} (m : Handler A) : Type 0 where
  pub keeps : (s : System) → (m s).1 ≡ s

pub Reads-pure : {A : Type 0} (a : A) → Reads (pure a)
Reads-pure a = record { keeps = λ s. refl }

pub Reads-raise : {A : Type 0} (e : ℕ) → Reads {A = A} (raise e)
Reads-raise e = record { keeps = λ s. refl }

pub Reads-raise_if : (b : Bool) (e : ℕ) → Reads (raise_if b e)
Reads-raise_if true e = record { keeps = λ s. refl }
Reads-raise_if false e = record { keeps = λ s. refl }

pub Reads-or_raise : {A : Type 0} (o : Option A) (e : ℕ) → Reads (or_raise o e)
Reads-or_raise none e = record { keeps = λ s. refl }
Reads-or_raise (some a) e = record { keeps = λ s. refl }

pub Reads-if :
    {A : Type 0} (b : Bool) {m n : Handler A} → Reads m → Reads n → Reads (if b then m else n)
Reads-if true h k = h
Reads-if false h k = k

-- A run of `m >>= f` where `m` only reads: `m` raised, or `f` runs from the same system.
pub data Ran {A B : Type 0} (m : Handler A) (f : A → Handler B) (s : System) : Type 0 where
  raised : (e : ℕ) → (m s).0 ≡ err e → (m >>= f) s ≡ (err e, s) → Ran m f s
  went_on : (a : A) → (m s).0 ≡ ok a → (m >>= f) s ≡ f a s → Ran m f s

abbrev resume : {A B : Type 0} → (A → Handler B) → Result A × System → Result B × System
resume f p = elim p.0 [ ok a ↦ f a p.1 | err e ↦ (err e, p.1) ]

Ran-from :
    {A B : Type 0} (m : Handler A) (f : A → Handler B) (s : System) (r : Result A)
    → m s ≡ (r, s)
    → Ran m f s
Ran-from m f s (ok a) h = went_on a (ap (λ p. p.0) h) (ap (resume f) h)
Ran-from m f s (err e) h = raised e (ap (λ p. p.0) h) (ap (resume f) h)

pub ran : {A B : Type 0} (m : Handler A) (f : A → Handler B) (s : System) → Reads m → Ran m f s
ran m f s h = Ran-from m f s (m s).0 (ap (λ t. ((m s).0, t)) (h.keeps s))

-- A relation that every state has to itself: a handler whose first part only reads keeps it if the
-- rest does.
pub related-bind :
    {A B : Type 0} (R : System → System → Type 0) (s : System) (m : Handler A) (f : A → Handler B)
    → R s s
    → Reads m
    → ((a : A) → (m s).0 ≡ ok a → R s (f a s).1)
    → R s ((m >>= f) s).1
related-bind R s m f same h k = elim (ran m f s h) [
  | raised e _ out ↦ rw out same
  | went_on a done out ↦ rw out (k a done)
]

pub Reads-bind :
    {A B : Type 0} (m : Handler A) (f : A → Handler B)
    → Reads m
    → ((a : A) → Reads (f a))
    → Reads (m >>= f)
Reads-bind m f h k = record {
  keeps = λ s. elim (ran m f s h) [
    | raised e _ out ↦ ap (λ p. p.1) out
    | went_on a _ out ↦ ap (λ p. p.1) out ∙ (k a).keeps s
  ];
}

pub ruleset reads_rules =
    (Reads-pure, Reads-raise, Reads-raise_if, Reads-or_raise, Reads-if, Reads-bind)

-- The check let the request pass, so its condition was false.
pub passed : (b : Bool) (e : ℕ) (s : System) {u : Unit {0}} → (raise_if b e s).0 ≡ ok u → b ≡ false
passed true e s h = cc
passed false e s h = refl
