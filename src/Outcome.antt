-- ===== src/Outcome.antt =====
-- Go's errors as values, and results. Operations on a state are in the child.
pub mod Exec
use cloud_service_broker.Prelude.{
  ◌≡◌, refl, ◌⊎◌, inl, inr, Bool, true, false, String, ℕ, List, [], ◌∷◌,
}
use Prim.Native.String.{◌++◌}

-- The errors that the code tells apart by identity or type, and those that only carry a message.
pub data Error : Type 0 where
  -- `brokerapi`'s and the broker's own sentinel errors
  instance_already_exists instance_does_not_exist : Error
  binding_already_exists binding_does_not_exist : Error
  async_required invalid_user_input non_updatable_parameter : Error
  get_instances_unsupported get_bindings_unsupported : Error
  -- `gorm.ErrRecordNotFound`
  record_not_found : Error
  -- `*googleapi.Error`: its code and its text
  google_api : ℕ → String → Error
  -- `errors.New(s)`
  plain : String → Error
  -- `fmt.Errorf("…%s…", err)`: the text before the cause, the cause, the text behind it
  wrapped : String → Error → String → Error
  -- `multierror.Error`: the first error and the others
  combined : Error → Error → Error

-- `err.Error()`; the texts of the sentinels are `brokerapi`'s, but for those of this program. A multierror's count
-- of its errors is left out.
pub message : (Error → String) → Error → String
message sentinel (google_api code text) = text
message sentinel (plain s) = s
message sentinel (wrapped before cause behind) = before ++ (message sentinel cause ++ behind)
message sentinel (combined e es) = message sentinel e ++ ("; " ++ message sentinel es)
message sentinel e = sentinel e

-- A multierror of one error or more.
abbrev pub multierror : Error → List Error → Error
multierror e [] = e
multierror e (f ∷ fs) = combined e (multierror f fs)

pub data Result (A : Type 0) : Type 0 where
  ok : A → Result A
  err : Error → Result A

infixl 5 ◌>>=◌
abbrev pub ◌>>=◌ : {A B : Type 0} → Result A → (A → Result B) → Result B
ok a >>= f = f a
err e >>= f = err e

abbrev pub guard : Bool → Error → Result (Unit {0})
guard true e = ok tt
guard false e = err e

-- Another error in place of the one that occurred.
abbrev pub or_raise : {A : Type 0} → Result A → (Error → Error) → Result A
or_raise (ok a) f = ok a
or_raise (err e) f = err (f e)

abbrev pub is_ok : {A : Type 0} → Result A → Bool
is_ok (ok _) = true
is_ok (err _) = false

-- To split on an outcome and keep the equation.
pub Result-cases :
    {A : Type 0} (r : Result A) → ((a : A) × (r ≡ ok a)) ⊎ ((e : Error) × (r ≡ err e))
Result-cases (ok a) = inl (a, refl)
Result-cases (err e) = inr (e, refl)
