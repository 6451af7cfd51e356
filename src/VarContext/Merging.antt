-- ===== src/VarContext/Merging.antt =====
-- Which of the sources of a variable wins: the laws of `MergeMap`, `MergeDefaults` and
-- `MergeJsonObject`.
use cloud_service_broker.Prelude.{
  ◌≡◌, refl, inl, inr, String, Bool, true, false, List, [], ◌∷◌, arith, ◌==◌, eq_iff, is_some,
  if◌then◌else◌, or_else,
}
use cloud_service_broker.Prelude.StringMap.{lookup, lookup-insert, lookup-merge}
use cloud_service_broker.Outcome.{Result-cases}
use cloud_service_broker.Json.{Value, null, text, Object}
use cloud_service_broker.Externals.{Externals}
use cloud_service_broker.VarContext.Builder.{
  ContextBuilder, DefaultVariable, merge_map, eval_and_cast, merge_eval_result, merge_value,
  merge_default, merge_defaults, merge_json_object,
}

-- Whether a variable of this name is among the defaults.
abbrev pub names : String → List DefaultVariable → Bool
names k [] = false
names k (v ∷ vs) = if v.name == k then true else names k vs

-- Whether all defaults leave a value alone that is there already.
abbrev pub keep_values : List DefaultVariable → Bool
keep_values [] = true
keep_values (v ∷ vs) = if v.overwrite then false else keep_values vs

module _ (x : Externals) where
  pub lookup-merge_map :
      (k : String) (d : Object) (b : ContextBuilder)
      → lookup k (merge_map d b).context ≡ or_else (lookup k d) (lookup k b.context)
  unfolding merge_map
  lookup-merge_map k d b = lookup-merge k b.context d

  pub lookup-merge_json_object :
      (k raw : String) (b : ContextBuilder)
      → (raw == "") ≡ false
      → lookup k (merge_json_object x raw b).context
        ≡ or_else (lookup k (x.unmarshal_object raw).0) (lookup k b.context)
  unfolding merge_json_object merge_map
  lookup-merge_json_object k raw b h =
      ground (arith, lookup-merge k b.context (x.unmarshal_object raw).0)

  lookup-merge_eval_result_ne :
      (k name template type_name : String) (b : ContextBuilder)
      → (name == k) ≡ false
      → lookup k (merge_eval_result x name template type_name b).context ≡ lookup k b.context
  unfolding merge_eval_result
  lookup-merge_eval_result_ne k name template type_name b h =
      elim (Result-cases (eval_and_cast x name template type_name b)) [
        | inl (v, e) ↦ ground (arith, e, h, lookup-insert k name v b.context)
        | inr (x, e) ↦ ground (arith, e)
      ]

  lookup-merge_value_ne :
      (k : String) (value : Value) (v : DefaultVariable) (b : ContextBuilder)
      → (v.name == k) ≡ false
      → lookup k (merge_value x value v b).context ≡ lookup k b.context
  unfolding merge_value
  lookup-merge_value_ne k null v b h = refl
  lookup-merge_value_ne k (text t) v b h =
      ground (arith, lookup-merge_eval_result_ne k v.name t v.type_name b h)
  lookup-merge_value_ne k value v b h = ground (arith, lookup-insert k v.name value b.context)

  lookup-merge_value_kept :
      (k : String) (value : Value) (v : DefaultVariable) (b : ContextBuilder)
      → v.overwrite ≡ false
      → is_some (lookup k b.context) ≡ true
      → lookup k (merge_value x value v b).context ≡ lookup k b.context
  unfolding merge_value
  lookup-merge_value_kept k null v b h present = refl
  lookup-merge_value_kept k (text t) v b h present =
      ground (arith, eq_iff v.name k, lookup-merge_eval_result_ne k v.name t v.type_name b)
  lookup-merge_value_kept k value v b h present =
      ground (arith, eq_iff v.name k, lookup-insert k v.name value b.context)

  -- A variable that no default names is left as it was.
  pub lookup-merge_defaults_ne :
      (k : String) (vs : List DefaultVariable) (b : ContextBuilder)
      → names k vs ≡ false
      → lookup k (merge_defaults x vs b).context ≡ lookup k b.context
  unfolding merge_defaults merge_default
  lookup-merge_defaults_ne k [] b h = refl
  lookup-merge_defaults_ne k (v ∷ vs) b h = ground (
    arith,
    lookup-merge_defaults_ne k vs (merge_default x v b),
    lookup-merge_value_ne k v.default_value v b,
  )

  -- A value that is there stays, whatever the defaults, if none of them overwrites.
  pub lookup-merge_defaults_kept :
      (k : String) (vs : List DefaultVariable) (b : ContextBuilder)
      → keep_values vs ≡ true
      → is_some (lookup k b.context) ≡ true
      → lookup k (merge_defaults x vs b).context ≡ lookup k b.context
  unfolding merge_defaults merge_default
  lookup-merge_defaults_kept k [] b h present = refl
  lookup-merge_defaults_kept k (v ∷ vs) b h present =
      let step = lookup-merge_value_kept k v.default_value v b in
      ground (arith, step, lookup-merge_defaults_kept k vs (merge_default x v b))
