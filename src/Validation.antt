-- ===== src/Validation.antt =====
-- pkg/validation: the checks of struct_validator.go. `FieldError` of field_error.go is adapted from
-- github.com/knative/pkg, and enters as a record of its operations and laws.
pub mod Fields
pub mod Laws
pub mod Constraints
use Prim.Native.Char.{Char, code}
use Prim.Native.String.{◌++◌}
use cloud_service_broker.Prelude.{
  String, ℕ, zero, suc, Bool, true, false, ◌&&◌, ◌||◌, Option, none, List, [], ◌∷◌, contains, ◌==◌,
  nat_eq, leb, if◌then◌else◌,
}
use cloud_service_broker.Validation.Fields.{FieldErrors}

-- The packages that tell whether a text is JSON, HCL or a URL with a scheme.
pub record Formats : Type 0 where
  pub valid_json : String → Bool
  pub parses_as_hcl : String → Bool
  pub is_absolute_uri : String → Bool

-- The regular expressions of the package, as matchers of the whole text.
abbrev between : Char → ℕ → ℕ → Bool
between c low high = leb low (code c) && leb (code c) high

abbrev is_hex : Char → Bool
is_hex c = between c b'0' b'9' || (between c b'a' b'f' || between c b'A' b'F')

abbrev is_osb_char : Char → Bool
is_osb_char c =
    between c b'a' b'z'
    || (between c b'A' b'Z'
        || (between c b'0' b'9' || (nat_eq (code c) b'-' || nat_eq (code c) b'.')))

abbrev is_identifier_char : Char → Bool
is_identifier_char c = between c b'a' b'z' || nat_eq (code c) b'_'

all_chars : (Char → Bool) → String → Bool
all_chars p String.[] = true
all_chars p (String.◌∷◌ c s) = p c && all_chars p s

-- `^[a-zA-Z0-9-\.]+$`
unfoldable pub matches_osb_name : String → Bool
unfolding all_chars
matches_osb_name s = if s == "" then false else all_chars is_osb_char s

-- `^[a-z_]*$`
unfoldable pub matches_terraform_identifier : String → Bool
unfolding all_chars
matches_terraform_identifier s = all_chars is_identifier_char s

-- `^(|object|boolean|array|number|string|integer)$`
unfoldable pub matches_json_schema_type : String → Bool
matches_json_schema_type s =
    contains s ("" ∷ "object" ∷ "boolean" ∷ "array" ∷ "number" ∷ "string" ∷ "integer" ∷ [])

-- A number of hexadecimal digits, and then what `rest` matches.
unfoldable pub hex_then : ℕ → (String → Bool) → String → Bool
hex_then zero rest s = rest s
hex_then (suc n) rest String.[] = false
hex_then (suc n) rest (String.◌∷◌ c s) = is_hex c && hex_then n rest s

unfoldable pub dash_then : (String → Bool) → String → Bool
dash_then rest String.[] = false
dash_then rest (String.◌∷◌ c s) = nat_eq (code c) b'-' && rest s

abbrev pub at_end : String → Bool
at_end s = s == ""

-- Eight, four, four, four and twelve hexadecimal digits.
unfoldable pub matches_uuid : String → Bool
unfolding hex_then dash_then
matches_uuid = hex_then 8 (
    dash_then (
      hex_then 4
        (dash_then (hex_then 4 (dash_then (hex_then 4 (dash_then (hex_then 12 at_end))))))))

module _ (fe : FieldErrors) where
  open fe use {FieldError, field_error, missing_field}

  unfoldable pub err_must_match : String → String → Option FieldError
  err_must_match regex field = field_error ("field must match '" ++ (regex ++ "'")) (field ∷ [])

  -- `ErrIfNotMatch`, with the regular expression as its matcher and its text.
  unfoldable pub err_if_not_match : String → (String → Bool) → String → String → Option FieldError
  unfolding err_must_match
  err_if_not_match value matches regex field =
      if matches value then none else err_must_match regex field

  unfoldable pub err_if_blank : String → String → Option FieldError
  err_if_blank value field = if value == "" then missing_field field else none

  unfoldable pub err_if_not_osb_name : String → String → Option FieldError
  unfolding err_if_not_match
  err_if_not_osb_name value field =
      err_if_not_match value matches_osb_name "^[a-zA-Z0-9-\\.]+$" field

  unfoldable pub err_if_not_json_schema_type : String → String → Option FieldError
  unfolding err_if_not_match
  err_if_not_json_schema_type value field =
      err_if_not_match value matches_json_schema_type
        "^(|object|boolean|array|number|string|integer)$" field

  unfoldable pub err_if_not_terraform_identifier : String → String → Option FieldError
  unfolding err_if_not_match
  err_if_not_terraform_identifier value field =
      err_if_not_match value matches_terraform_identifier "^[a-z_]*$" field

  unfoldable pub err_if_not_uuid : String → String → Option FieldError
  err_if_not_uuid value field =
      if matches_uuid value then none else field_error "field must be a UUID" (field ∷ [])

  -- `for i, v := range vs { errs = errs.Also(v.Validate().ViaFieldIndex(field, i)) }`
  unfoldable pub each :
      {A : Type 0}
      → (A → Option FieldError)
      → String
      → ℕ
      → List A
      → Option FieldError
      → Option FieldError
  each validate field i [] errs = errs
  each validate field i (v ∷ vs) errs =
      each validate field (suc i) vs (fe.also errs (fe.via_field_index field i (validate v) ∷ []))

  module _ (formats : Formats) where
    unfoldable pub err_if_not_json : String → String → Option FieldError
    err_if_not_json value field =
        if formats.valid_json value then none else field_error "invalid JSON" (field ∷ [])

    unfoldable pub err_if_not_hcl : String → String → Option FieldError
    err_if_not_hcl value field =
        if formats.parses_as_hcl value then none else field_error "invalid HCL" (field ∷ [])

    unfoldable pub err_if_not_url : String → String → Option FieldError
    err_if_not_url value field =
        if formats.is_absolute_uri value
        then none
        else field_error "field must be a URL" (field ∷ [])
