-- ===== src/Validation/Fields.antt =====
-- pkg/validation/field_error.go, of github.com/knative/pkg, as a record.
use cloud_service_broker.Prelude.{◌≡◌, ◌≢◌, String, ℕ, Option, none, List, [], ◌∷◌}

-- Every error of the list is nil.
abbrev pub AllNone : {A : Type 0} → List (Option A) → Type 0
AllNone [] = Unit
AllNone (e ∷ es) = (e ≡ none) × AllNone es

-- Every element is valid.
abbrev pub AllValid : {A F : Type 0} → (A → Option F) → List A → Type 0
AllValid validate [] = Unit
AllValid validate (a ∷ as') = (validate a ≡ none) × AllValid validate as'

-- `*FieldError` is an option: none is nil, or an error with nothing in it, which `Also` drops too.
pub record FieldErrors : Type 1 where
  pub FieldError : Type 0
  -- `e.Also(es...)`
  pub also : Option FieldError → List (Option FieldError) → Option FieldError
  pub via_field : String → Option FieldError → Option FieldError
  pub via_field_index : String → ℕ → Option FieldError → Option FieldError
  pub via_field_key : String → String → Option FieldError → Option FieldError
  -- `ErrMissingField` of one field
  pub missing_field : String → Option FieldError
  -- `ErrInvalidValue` of a value's text
  pub invalid_value : String → String → Option FieldError
  -- `&FieldError{Message: …, Paths: …}`
  pub field_error : String → List String → Option FieldError
  pub error_text : FieldError → String
  -- `Also` collects: nothing is lost, and nothing is added.
  pub also_none :
      (e : Option FieldError) (es : List (Option FieldError))
      → e ≡ none
      → AllNone es
      → also e es ≡ none
  pub also_collects :
      (e : Option FieldError) (es : List (Option FieldError))
      → also e es ≡ none
      → (e ≡ none) × AllNone es
  -- A path is put before those of an error that there is.
  pub via_field_none : (f : String) (e : Option FieldError) → via_field f e ≡ none → e ≡ none
  pub via_field_index_none :
      (f : String) (i : ℕ) (e : Option FieldError) → via_field_index f i e ≡ none → e ≡ none
  pub via_field_key_none :
      (f k : String) (e : Option FieldError) → via_field_key f k e ≡ none → e ≡ none
  pub via_field_nil : (f : String) → via_field f none ≡ none
  pub via_field_index_nil : (f : String) (i : ℕ) → via_field_index f i none ≡ none
  pub via_field_key_nil : (f k : String) → via_field_key f k none ≡ none
  pub missing_field_some : (f : String) → missing_field f ≢ none
  pub invalid_value_some : (v f : String) → invalid_value v f ≢ none
  pub field_error_some : (s f : String) (fs : List String) → field_error s (f ∷ fs) ≢ none
