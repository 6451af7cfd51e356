-- ===== src/Policy/Laws.antt =====
-- What a list of policies declares, and what its validation promises.
use cloud_service_broker.Prelude.{
  ◌≡◌, refl, sym, ◌∙◌, inl, inr, String, Bool, true, Option, none, some, List, [], ◌∷◌, arith,
  eq_iff, if◌then◌else◌, or_else, contains,
}
use cloud_service_broker.Prelude.StringMap.{lookup, keys, merge, lookup-merge}
use cloud_service_broker.Outcome.{ok, Result-cases}
use cloud_service_broker.Json.{Value, Object}
use cloud_service_broker.StringSet.{
  StringSet, new_string_set, new_string_set_from_string_map_keys, minus,
}
use cloud_service_broker.StringSet.Laws.{
  contains-minus, contains-new_string_set, contains-new_string_set_from_string_map_keys,
  is_empty_iff,
}
use mathlib.Core.List.{Memᴰ}
use mathlib.Core.List.Memᴰ.{head, tail}
use cloud_service_broker.Policy.{
  Condition, applies_to, is_value, Policy, PolicyList, declared, apply_from, apply, validate_keys,
  validate_policies, check_assertions_from, check_assertions, validate,
}

-- A condition that applies asks of no facet another value than the truth's.
pub applies_to_sound :
    (cond truth : Condition) (k v : String)
    → applies_to cond truth ≡ true
    → lookup k cond ≡ some v
    → lookup k truth ≡ some v
unfolding applies_to
applies_to_sound [] truth k v h m = absurd (ground arith)
applies_to_sound ((j, w) ∷ cond) truth k v h m =
    ground
      (arith, eq_iff j k, eq_iff w v, by_value (lookup j truth), applies_to_sound cond truth k v)
  where
    by_value : (o : Option String) → is_value w o ≡ true → o ≡ some w
    by_value none e = absurd (ground arith)
    by_value (some u) e = ground (arith, eq_iff w u)

-- The last policy that applies and declares the key counts.
abbrev pub last_declaration : String → List Policy → Condition → Option Value
last_declaration k [] truth = none
last_declaration k (p ∷ ps) truth =
    let later = last_declaration k ps truth in
    if applies_to p.condition truth
    then or_else later (lookup k (declared p.declarations))
    else later

lookup-apply_from :
    (k : String) (ps : List Policy) (truth : Condition) (out : Object)
    → lookup k (apply_from ps truth out) ≡ or_else (last_declaration k ps truth) (lookup k out)
unfolding apply_from
lookup-apply_from k [] truth out = refl
lookup-apply_from k (p ∷ ps) truth out = ground (
  arith,
  lookup-apply_from k ps truth (merge out (declared p.declarations)),
  lookup-apply_from k ps truth out,
  lookup-merge k out (declared p.declarations),
)

-- Applying the policies gives each key the value of the last policy that applies and declares it.
pub lookup-apply :
    (k : String) (pl : PolicyList) (truth : Condition)
    → lookup k (apply pl truth) ≡ last_declaration k pl.policies truth
unfolding apply
lookup-apply k pl truth = ground (arith, lookup-apply_from k pl.policies truth [])

module _ (print_keys : StringSet → List String → String)
    (deep_equal : Object → Option Object → Bool) where
  validate_keys_sound :
      (allowed : List String) (cond : Condition) (k : String)
      → validate_keys print_keys deep_equal allowed cond ≡ ok tt
      → contains k (keys cond) ≡ true
      → contains k allowed ≡ true
  unfolding validate_keys
  validate_keys_sound allowed cond k h m =
      let found = new_string_set_from_string_map_keys cond in
      let good = new_string_set allowed in
      ground (
        arith,
        (is_empty_iff (minus found good)).0 (ground (arith, h)) k,
        contains-minus k found good,
        contains-new_string_set k allowed,
        contains-new_string_set_from_string_map_keys k cond,
      )

  validate_policies_sound :
      (allowed : List String) (ps : List Policy) (p : Policy) (k : String)
      → validate_policies print_keys deep_equal allowed ps ≡ ok tt
      → Memᴰ p ps
      → contains k (keys p.condition) ≡ true
      → contains k allowed ≡ true
  unfolding validate_policies
  validate_policies_sound allowed [] p k h i m = elim i [ ]
  validate_policies_sound allowed (q ∷ ps) p k h (head e) m =
      validate_keys_sound allowed p.condition k (rw e (ground (arith, h))) m
  validate_policies_sound allowed (q ∷ ps) p k h (tail i) m =
      validate_policies_sound allowed ps p k (ground (arith, h)) i m

  -- In a list of policies that is valid, each condition is on allowed keys only.
  pub validate-keys :
      (allowed : List String) (pl : PolicyList) (p : Policy) (k : String)
      → validate print_keys deep_equal allowed pl ≡ ok tt
      → Memᴰ p pl.policies
      → contains k (keys p.condition) ≡ true
      → contains k allowed ≡ true
  unfolding validate
  validate-keys allowed pl p k h =
      elim (Result-cases (validate_policies print_keys deep_equal allowed pl.policies)) [
        | inr (e, refused) ↦ absurd (ground (arith, h, refused))
        | inl (u, valid) ↦ validate_policies_sound allowed pl.policies p k valid
      ]

  check_assertions_from_sound :
      (pl : PolicyList) (checks : List Policy) (a : Policy) (k : String)
      → ((x : Object) (y : Option Object) (j : String)
          → deep_equal x y ≡ true
          → lookup j x ≡ lookup j (declared y))
      → check_assertions_from print_keys deep_equal pl checks ≡ ok tt
      → Memᴰ a checks
      → lookup k (apply pl a.condition) ≡ lookup k (declared a.declarations)
  unfolding check_assertions_from
  check_assertions_from_sound pl [] a k same h i = elim i [ ]
  check_assertions_from_sound pl (b ∷ checks) a k same h (head e) =
      same (apply pl a.condition) a.declarations k (rw e (ground (arith, h)))
  check_assertions_from_sound pl (b ∷ checks) a k same h (tail i) =
      check_assertions_from_sound pl checks a k same (ground (arith, h)) i

  -- In a list of policies that is valid, the policies declare under each assertion's condition
  -- exactly what the assertion expects, if values that are deeply equal have the same entries.
  pub validate-assertions :
      (allowed : List String) (pl : PolicyList) (a : Policy) (k : String)
      → ((x : Object) (y : Option Object) (j : String)
          → deep_equal x y ≡ true
          → lookup j x ≡ lookup j (declared y))
      → validate print_keys deep_equal allowed pl ≡ ok tt
      → Memᴰ a pl.assertions
      → last_declaration k pl.policies a.condition ≡ lookup k (declared a.declarations)
  unfolding validate check_assertions
  validate-assertions allowed pl a k same h i =
      elim (Result-cases (validate_policies print_keys deep_equal allowed pl.policies)) [
        | inr (e, refused) ↦ absurd (ground (arith, h, refused))
        | inl (u, valid) ↦
            sym (lookup-apply k pl a.condition)
            ∙ check_assertions_from_sound pl pl.assertions a k same (ground (arith, h, valid)) i
      ]
