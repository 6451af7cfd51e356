-- ===== src/VarContext/Errors.antt =====
-- The errors of a builder, which a step may replace, and whether there are any.
use cloud_service_broker.Prelude.{
  ◌≡◌, refl, inl, inr, String, Bool, true, false, some, List, [], ◌∷◌, ◌++◌, arith, Option-cases,
  ◌==◌,
}
use cloud_service_broker.Outcome.{Error, ok, Result-cases}
use cloud_service_broker.Json.{Value, null, text, Object}
use cloud_service_broker.Externals.{Externals}
use cloud_service_broker.VarContext.{VarContext}
use cloud_service_broker.VarContext.Builder.{
  ContextBuilder, DefaultVariable, merge_map, eval_and_cast, merge_eval_result, merge_value,
  merge_default, merge_defaults, append_error, merge_json_object, build,
}

-- Whether a step has failed.
abbrev pub is_failed : ContextBuilder → Bool
is_failed b = elim b.errors [ [] ↦ false | _ ∷ _ ↦ true ]

pub is_ok-build : (b : ContextBuilder) (vc : VarContext) → build b ≡ ok vc → is_failed b ≡ false
unfolding build
is_ok-build b vc h = ground arith

pub context-build :
    (b : ContextBuilder) (vc : VarContext) → build b ≡ ok vc → vc.context ≡ b.context
unfolding build
context-build b vc h = ground arith

module _ (x : Externals) where
  pub is_failed-merge_map :
      (d : Object) (b : ContextBuilder) → is_failed (merge_map d b) ≡ is_failed b
  unfolding merge_map
  is_failed-merge_map d b = refl

  is_failed-merge_eval_result :
      (name template type_name : String) (b : ContextBuilder)
      → is_failed b ≡ true
      → is_failed (merge_eval_result x name template type_name b) ≡ true
  unfolding merge_eval_result
  is_failed-merge_eval_result name template type_name b h =
      elim (Result-cases (eval_and_cast x name template type_name b)) [
        | inl (v, e) ↦ ground (arith, e, h)
        | inr (y, e) ↦ ground (arith, e)
      ]

  is_failed-merge_value :
      (value : Value) (v : DefaultVariable) (b : ContextBuilder)
      → is_failed b ≡ true
      → is_failed (merge_value x value v b) ≡ true
  unfolding merge_value
  is_failed-merge_value null v b h = h
  is_failed-merge_value (text t) v b h =
      ground (arith, is_failed-merge_eval_result v.name t v.type_name b h)
  is_failed-merge_value value v b h = ground arith

  pub is_failed-merge_defaults :
      (vs : List DefaultVariable) (b : ContextBuilder)
      → is_failed b ≡ true
      → is_failed (merge_defaults x vs b) ≡ true
  unfolding merge_defaults merge_default
  is_failed-merge_defaults [] b h = h
  is_failed-merge_defaults (v ∷ vs) b h =
      is_failed-merge_defaults vs (merge_default x v b)
        (is_failed-merge_value v.default_value v b h)

  is_failed-append :
      (es : List Error) (e : Error) (b : ContextBuilder)
      → is_failed (record b { errors = es ++ (e ∷ []) }) ≡ true
  is_failed-append [] e b = refl
  is_failed-append (f ∷ es) e b = refl

  pub is_failed-merge_json_object :
      (raw : String) (b : ContextBuilder)
      → is_failed b ≡ true
      → is_failed (merge_json_object x raw b) ≡ true
  unfolding merge_json_object append_error merge_map
  is_failed-merge_json_object raw b h = elim (Option-cases (x.unmarshal_object raw).1) [
    | inl e ↦ ground (arith, e, h)
    | inr (f, e) ↦ ground (arith, e, h, is_failed-append b.errors f b)
  ]

  -- A message that does not decode fails the builder.
  pub merge_json_object-undecoded :
      (raw : String) (b : ContextBuilder) (e : Error)
      → (raw == "") ≡ false
      → (x.unmarshal_object raw).1 ≡ some e
      → is_failed (merge_json_object x raw b) ≡ true
  unfolding merge_json_object append_error merge_map
  merge_json_object-undecoded raw b e h undecoded = ground (arith, is_failed-append b.errors e b)
