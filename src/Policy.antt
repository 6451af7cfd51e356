-- ===== src/Policy.antt =====
-- pkg/broker/policy/policy.go: values that are set where a condition holds.
pub mod Laws
use Prim.Native.String.{◌++◌ as append}
use cloud_service_broker.Prelude.{
  String, Bool, true, false, Option, none, some, List, [], ◌∷◌, ◌==◌, if◌then◌else◌,
}
use cloud_service_broker.Prelude.StringMap.{StringMap, lookup, merge}
use cloud_service_broker.Outcome.{Result, ok, err, guard, plain, wrapped, or_raise, ◌>>=◌}
use cloud_service_broker.Json.{Object}
use cloud_service_broker.StringSet
use cloud_service_broker.StringSet.{
  StringSet, new_string_set, new_string_set_from_string_map_keys, minus, is_empty,
}

-- What each facet must be.
abbrev pub Condition : Type 0
Condition = StringMap String

-- `v != truthValue`, with its `ok`
abbrev pub is_value : String → Option String → Bool
is_value v none = false
is_value v (some truth_value) = v == truth_value

unfoldable pub applies_to : Condition → Condition → Bool
applies_to [] truth = true
applies_to ((k, v) ∷ cond) truth =
    if is_value v (lookup k truth) then applies_to cond truth else false

pub record Policy : Type 0 where
  pub comment : String
  pub condition : Condition
  -- none for a nil map
  pub declarations : Option Object

pub record PolicyList : Type 0 where
  pub policies : List Policy
  pub assertions : List Policy

-- A range over a nil map is empty.
abbrev pub declared : Option Object → Object
declared none = []
declared (some d) = d

-- The loop of `Apply`, on the map made so far.
unfoldable pub apply_from : List Policy → Condition → Object → Object
apply_from [] ground_truth out = out
apply_from (policy ∷ policies) ground_truth out = apply_from policies ground_truth (
    if applies_to policy.condition ground_truth
    then merge out (declared policy.declarations)
    else out)

unfoldable pub apply : PolicyList → Condition → Object
apply pl ground_truth = apply_from pl.policies ground_truth []

-- `print_keys` is the text that fmt makes of the keys, `deep_equal` is `reflect.DeepEqual`.
module _ (print_keys : StringSet → List String → String)
    (deep_equal : Object → Option Object → Bool) where
  unfoldable pub validate_keys : List String → Condition → Result (Unit {0})
  validate_keys allowed_keys cond =
      let invalid_keys =
        minus (new_string_set_from_string_map_keys cond) (new_string_set allowed_keys) in
      guard (is_empty invalid_keys) (
        wrapped "unknown condition keys: " (plain (print_keys invalid_keys allowed_keys))
          ", check their capitalization and spelling")

  -- The number of the policy is left out of the error.
  unfoldable pub validate_policies : List String → List Policy → Result (Unit {0})
  validate_policies valid_condition_keys [] = ok tt
  validate_policies valid_condition_keys (pol ∷ pols) = do
    valid ←
        or_raise (validate_keys valid_condition_keys pol.condition)
          (λ e. wrapped (append "error in policy, comment: " pol.comment) e "")
    validate_policies valid_condition_keys pols

  unfoldable pub check_assertions_from : PolicyList → List Policy → Result (Unit {0})
  check_assertions_from pl [] = ok tt
  check_assertions_from pl (assertion ∷ assertions) = do
    holds ←
        guard (deep_equal (apply pl assertion.condition) assertion.declarations)
          (plain (append "error in assertion, comment: " assertion.comment))
    check_assertions_from pl assertions

  unfoldable pub check_assertions : PolicyList → Result (Unit {0})
  check_assertions pl = check_assertions_from pl pl.assertions

  unfoldable pub validate : List String → PolicyList → Result (Unit {0})
  validate valid_condition_keys pl = do
    valid ← validate_policies valid_condition_keys pl.policies
    check_assertions pl
