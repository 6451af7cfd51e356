-- ===== src/Outcome/Exec.antt =====
-- Operations on a state that may fail.
use cloud_service_broker.Outcome.{Error, Result, ok, err}

-- An operation on a state. What was written before an error stays written.
abbrev pub Exec : Type 0 → Type 0 → Type 0
Exec S A = S → Result A × S

abbrev pub pure : {S A : Type 0} → A → Exec S A
pure a s = (ok a, s)

abbrev pub lift : {S A : Type 0} → Result A → Exec S A
lift r s = (r, s)

infixl 5 ◌>>=◌ ◌>>◌
abbrev pub ◌>>=◌ : {S A B : Type 0} → Exec S A → (A → Exec S B) → Exec S B
◌>>=◌ m f s = let (r, s') = m s in elim r [ ok a ↦ f a s' | err e ↦ (err e, s') ]

abbrev pub ◌>>◌ : {S B : Type 0} → Exec S (Unit {0}) → Exec S B → Exec S B
m >> k = m >>= λ _. k

-- A read, which leaves the state alone.
abbrev pub query : {S A : Type 0} → (S → Result A) → Exec S A
query f s = (f s, s)

-- The error replaced on the way out; what was written stays written.
abbrev pub or_raise : {S A : Type 0} → Exec S A → (Error → Error) → Exec S A
or_raise m f s = let (r, s') = m s in (elim r [ ok a ↦ ok a | err e ↦ err (f e) ], s')
