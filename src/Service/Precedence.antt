-- ===== src/Service/Precedence.antt =====
-- Where the value of a variable comes from, and when the variables of a request are given at all.
use mathlib.Core.List.{Memᴰ}
use mathlib.Core.List.Memᴰ.{head, tail}
use cloud_service_broker.Prelude.{
  ◌≡◌, ◌≢◌, refl, inl, inr, String, true, false, Option, none, some, List, [], ◌∷◌, arith, ◌==◌,
  is_some, if◌then◌else◌, or_else,
}
use cloud_service_broker.Prelude.StringMap.{lookup}
use cloud_service_broker.Outcome.{Error, ok, Result-cases}
use cloud_service_broker.Json.{Value, Object}
use cloud_service_broker.Externals.{Externals}
use cloud_service_broker.Catalog.{ServicePlan, get_service_properties}
use cloud_service_broker.VarContext.{VarContext}
use cloud_service_broker.VarContext.Builder.{
  ContextBuilder, builder, set_eval_constants, merge_map, merge_json_object, merge_defaults, build,
}
use cloud_service_broker.VarContext.Merging.{
  names, keep_values, lookup-merge_map, lookup-merge_json_object, lookup-merge_defaults_ne,
  lookup-merge_defaults_kept,
}
use cloud_service_broker.VarContext.Errors.{
  is_failed, is_ok-build, context-build, is_failed-merge_map, is_failed-merge_defaults,
  is_failed-merge_json_object, merge_json_object-undecoded,
}
use cloud_service_broker.Service.Schema.{BrokerVariable}
use cloud_service_broker.Service.Definition.{ServiceDefinition}
use cloud_service_broker.Service.Variables.{
  input_default, input_defaults, provision_builder, provision_global_defaults,
  provision_default_overrides, build_and_validate, variables,
}

keep_values-input_defaults : (vs : List BrokerVariable) → keep_values (input_defaults vs) ≡ true
unfolding input_defaults input_default
keep_values-input_defaults [] = refl
keep_values-input_defaults (v ∷ vs) = ground (arith, keep_values-input_defaults vs)

module _ (x : Externals) where
  -- What a JSON message says of a variable.
  abbrev pub parameter : String → String → Option Value
  parameter k raw = if raw == "" then none else lookup k (x.unmarshal_object raw).0

  -- The value that the operator or the user has given, the highest precedence first.
  abbrev pub given : String → Object → Object → String → String → ServicePlan → Option Value
  given k global overrides raw_provision raw_update plan =
      or_else (lookup k plan.provision_overrides) (
        or_else (parameter k raw_update)
          (or_else (parameter k raw_provision) (or_else (lookup k overrides) (lookup k global))))

  lookup-merge_json :
      (k raw : String) (b : ContextBuilder)
      → lookup k (merge_json_object x raw b).context
        ≡ or_else (parameter k raw) (lookup k b.context)
  unfolding merge_json_object
  lookup-merge_json k raw b = ground (arith, lookup-merge_json_object x k raw b)

  is_failed-messages :
      (raw_provision raw_update raw : String) (b : ContextBuilder) (e : Error)
      → Memᴰ raw (raw_provision ∷ raw_update ∷ [])
      → (raw == "") ≡ false
      → (x.unmarshal_object raw).1 ≡ some e
      → is_failed (merge_json_object x raw_update (merge_json_object x raw_provision b)) ≡ true
  is_failed-messages raw_provision raw_update raw b e (head p) given' undecoded =
      is_failed-merge_json_object x raw_update (merge_json_object x raw_provision b)
        (merge_json_object-undecoded x raw_provision b e (rw p at given') (rw p at undecoded))
  is_failed-messages raw_provision raw_update raw b e (tail (head p)) given' undecoded =
      merge_json_object-undecoded x raw_update (merge_json_object x raw_provision b) e
        (rw p at given') (rw p at undecoded)
  is_failed-messages raw_provision raw_update raw b e (tail (tail i)) given' undecoded = elim i [ ]

  module _ {P : Type 0} (svc : ServiceDefinition P) where
    -- A variable that the service does not compute has its plan's property; failing that, the plan's
    -- override, then the parameter of the update, then that of the provision call, then the
    -- operator's default for the service, then the operator's default for all services.
    pub provision_precedence :
        (k : String) (constants global overrides : Object) (raw_provision raw_update : String)
        (plan : ServicePlan)
        → names k svc.provision_computed_variables ≡ false
        → is_some (given k global overrides raw_provision raw_update plan) ≡ true
        → lookup k
            (provision_builder x svc constants global overrides raw_provision raw_update
              plan).context
          ≡ or_else
              (lookup k plan.service_properties)
              (given k global overrides raw_provision raw_update plan)
    unfolding provision_builder get_service_properties set_eval_constants
    provision_precedence k constants global overrides raw_provision raw_update plan own h =
        let b1 = merge_map global (set_eval_constants constants builder) in
        let b2 = merge_map overrides b1 in
        let b3 = merge_json_object x raw_provision b2 in
        let b4 = merge_json_object x raw_update b3 in
        let b5 = merge_map plan.provision_overrides b4 in
        let b6 = merge_defaults x (input_defaults svc.provision_input_variables) b5 in
        let b7 = merge_map plan.service_properties b6 in
        ground (
          arith,
          h,
          lookup-merge_map x k global (set_eval_constants constants builder),
          lookup-merge_map x k overrides b1,
          lookup-merge_json k raw_provision b2,
          lookup-merge_json k raw_update b3,
          lookup-merge_map x k plan.provision_overrides b4,
          lookup-merge_defaults_kept x k (input_defaults svc.provision_input_variables) b5
              (keep_values-input_defaults svc.provision_input_variables),
          lookup-merge_map x k plan.service_properties b6,
          lookup-merge_defaults_ne x k svc.provision_computed_variables b7 own,
        )

    -- When the variables of a request are resolved, take a variable that the service does not compute
    -- and that the plan's overrides, the request or the operator gives. It has the plan's property;
    -- failing that the plan's override, then the parameter of the update, then that of the provision
    -- call, then the operator's default for the service, then the operator's default for all services.
    pub variables_precedence :
        (k : String) (constants global overrides : Object) (raw_provision raw_update : String)
        (plan : ServicePlan) (vc : VarContext)
        → provision_global_defaults x ≡ ok global
        → provision_default_overrides x svc ≡ ok overrides
        → variables x svc constants raw_provision raw_update plan ≡ ok vc
        → names k svc.provision_computed_variables ≡ false
        → is_some (given k global overrides raw_provision raw_update plan) ≡ true
        → lookup k vc.context
          ≡ or_else
              (lookup k plan.service_properties)
              (given k global overrides raw_provision raw_update plan)
    unfolding variables build_and_validate
    variables_precedence k constants global overrides raw_provision raw_update plan vc g o h own
          some' =
        let b = provision_builder x svc constants global overrides raw_provision raw_update plan in
        ground (
          arith,
          h,
          g,
          o,
          context-build b vc,
          provision_precedence k constants global overrides raw_provision raw_update plan own some',
        )

    is_failed-provision_builder :
        (constants global overrides : Object) (raw_provision raw_update raw : String)
        (plan : ServicePlan) (e : Error)
        → Memᴰ raw (raw_provision ∷ raw_update ∷ [])
        → (raw == "") ≡ false
        → (x.unmarshal_object raw).1 ≡ some e
        → is_failed
            (provision_builder x svc constants global overrides raw_provision raw_update plan)
          ≡ true
    unfolding provision_builder
    is_failed-provision_builder constants global overrides raw_provision raw_update raw plan e i
          given' undecoded =
        let b1 = merge_map global (set_eval_constants constants builder) in
        let b2 = merge_map overrides b1 in
        let b3 = merge_json_object x raw_provision b2 in
        let b4 = merge_json_object x raw_update b3 in
        let b5 = merge_map plan.provision_overrides b4 in
        let b6 = merge_defaults x (input_defaults svc.provision_input_variables) b5 in
        let b7 = merge_map (get_service_properties plan) b6 in
        ground (
          arith,
          is_failed-messages raw_provision raw_update raw b2 e i given' undecoded,
          is_failed-merge_map x plan.provision_overrides b4,
          is_failed-merge_defaults x (input_defaults svc.provision_input_variables) b5,
          is_failed-merge_map x (get_service_properties plan) b6,
          is_failed-merge_defaults x svc.provision_computed_variables b7,
        )

    -- The variables of a request are not given if one of its messages, that of the provision call or that
    -- of the update, is not blank and its decoding reports an error, whatever the steps that follow
    -- report.
    pub variables_undecoded :
        (constants : Object) (raw_provision raw_update raw : String) (plan : ServicePlan)
        (e : Error) (vc : VarContext)
        → Memᴰ raw (raw_provision ∷ raw_update ∷ [])
        → (raw == "") ≡ false
        → (x.unmarshal_object raw).1 ≡ some e
        → variables x svc constants raw_provision raw_update plan ≢ ok vc
    unfolding variables build_and_validate
    variables_undecoded constants raw_provision raw_update raw plan e vc i given' undecoded h =
        elim (Result-cases (provision_global_defaults x)) [
          | inr (f, failed) ↦ ground (arith, h, failed)
          | inl (global, g) ↦ elim (Result-cases (provision_default_overrides x svc)) [
            | inr (f, failed) ↦ ground (arith, h, g, failed)
            | inl (overrides, o) ↦
                (let b =
                    provision_builder x svc constants global overrides raw_provision raw_update
                      plan in
                  elim (Result-cases (build b)) [
                    | inr (f, failed) ↦ ground (arith, h, g, o, failed)
                    | inl (vc', built) ↦ ground (
                      arith,
                      built,
                      is_ok-build b vc' built,
                      is_failed-provision_builder constants global overrides raw_provision
                          raw_update raw plan e i given' undecoded,
                    )
                  ])
          ]
        ]
