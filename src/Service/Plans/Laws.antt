-- ===== src/Service/Plans/Laws.antt =====
-- What the plans that an operator defines must have, and which plan a request gets.
use mathlib.Core.List.{Memᴰ}
use mathlib.Core.List.Memᴰ.{head, tail}
use mathlib.Core.List.Memᴰ
use cloud_service_broker.Prelude.{
  ◌≡◌, ◌≢◌, ap, inl, inr, String, Bool, true, false, some, List, [], ◌∷◌, ◌++◌, eq_iff, arith,
  is_some, Bool-cases,
}
use cloud_service_broker.Prelude.Rows.{find, find_sound}
use cloud_service_broker.Prelude.StringMap.{lookup}
use cloud_service_broker.Outcome.{ok, Result-cases}
use cloud_service_broker.Json.{Object}
use cloud_service_broker.Externals.{Externals}
use cloud_service_broker.Catalog.{ServicePlan, Service}
use cloud_service_broker.Service.Schema.{BrokerVariable}
use cloud_service_broker.Service.Definition.{ServiceDefinition}
use cloud_service_broker.Service.Plans.{
  missing_property, validate_plan, decode_plan, decode_plans, user_defined_plans, raw_config_plans,
  raw_tile_plans, unmarshal_object_remainder, unmarshal_map, with_guid, catalog_entry,
  get_plan_by_id, has_plan_id,
}

has_property :
    (vs : List BrokerVariable) (properties : Object) (v : BrokerVariable)
    → missing_property vs properties ≡ false
    → Memᴰ v vs
    → v.required ≡ true
    → is_some (lookup v.field_name properties) ≡ true
unfolding missing_property
has_property [] properties v h i req = elim i [ ]
has_property (w ∷ vs) properties v h (head e) req =
    rw e (ground (arith, h, ap (λ u. u.required) e, req))
has_property (w ∷ vs) properties v h (tail i) req =
    has_property vs properties v (ground (arith, h)) i req

module _ (x : Externals) {P : Type 0} (svc : ServiceDefinition P) where
  decode_plan_valid :
      (raw : String) (p : ServicePlan)
      → decode_plan x svc raw ≡ ok p
      → validate_plan x svc p ≡ ok tt
  unfolding decode_plan
  decode_plan_valid raw p h = elim (Result-cases (unmarshal_object_remainder x raw)) [
    | inr (e, refused) ↦ absurd (ground (arith, h, refused))
    | inl ((plan, remainder), e) ↦ elim (Result-cases (unmarshal_map x remainder)) [
      | inr (f, refused) ↦ absurd (ground (arith, h, e, refused))
      | inl (properties, f) ↦
          (let decoded = with_guid x svc (record plan { service_properties = properties }) in
            elim (Result-cases (validate_plan x svc decoded)) [
              | inr (g, refused) ↦ absurd (ground (arith, h, e, f, refused))
              | inl (u, valid) ↦
                  (let same : decoded ≡ p = ground (arith, h, e, f, valid) in rw (← same) valid)
            ])
    ]
  ]

  decode_plans_valid :
      (raws : List String) (plans : List ServicePlan) (p : ServicePlan)
      → decode_plans x svc raws ≡ ok plans
      → Memᴰ p plans
      → validate_plan x svc p ≡ ok tt
  unfolding decode_plans
  decode_plans_valid [] [] p h i = elim i [ ]
  decode_plans_valid [] (q ∷ plans) p h i = absurd (ground (arith, h))
  decode_plans_valid (raw ∷ raws) plans p h i = elim (Result-cases (decode_plan x svc raw)) [
    | inr (e, refused) ↦ absurd (ground (arith, h, refused))
    | inl (q, e) ↦ elim (Result-cases (decode_plans x svc raws)) [
      | inr (f, refused) ↦ absurd (ground (arith, h, e, refused))
      | inl (rest, f) ↦
          (let same : plans ≡ q ∷ rest = ground (arith, h, e, f) in
            let member : Memᴰ p (q ∷ rest) = rw (← same) i in
            elim (Memᴰ.cases_cons member) [
              | inl own ↦ rw own (decode_plan_valid raw q e)
              | inr k ↦ decode_plans_valid raws rest p f k
            ])
    ]
  ]

  user_plan_valid :
      (plans : List ServicePlan) (p : ServicePlan)
      → user_defined_plans x svc ≡ ok plans
      → Memᴰ p plans
      → validate_plan x svc p ≡ ok tt
  unfolding user_defined_plans
  user_plan_valid plans p h i = elim (Result-cases (raw_config_plans x svc)) [
    | inr (e, refused) ↦ absurd (ground (arith, h, refused))
    | inl (config, c) ↦ elim (Result-cases (raw_tile_plans x svc)) [
      | inr (e, refused) ↦ absurd (ground (arith, h, c, refused))
      | inl (tile, t) ↦ decode_plans_valid (config ++ tile) plans p (ground (arith, h, c, t)) i
    ]
  ]

  -- When the plans that an operator defines are read, each of them has an id and a name.
  pub user_defined_plans_named :
      (plans : List ServicePlan) (p : ServicePlan)
      → user_defined_plans x svc ≡ ok plans
      → Memᴰ p plans
      → (p.id ≢ "") × (p.name ≢ "")
  unfolding validate_plan
  user_defined_plans_named plans p h i =
      let valid = user_plan_valid plans p h i in
      (
        λ e. ground (arith, valid, (eq_iff p.id "").1 e),
        λ e. ground (arith, valid, (eq_iff p.name "").1 e),
      )

  -- When the plans that an operator defines are read, each of them has every property that the
  -- service requires of its plans.
  pub user_defined_plans_complete :
      (plans : List ServicePlan) (p : ServicePlan) (v : BrokerVariable)
      → user_defined_plans x svc ≡ ok plans
      → Memᴰ p plans
      → Memᴰ v svc.plan_variables
      → v.required ≡ true
      → is_some (lookup v.field_name p.service_properties) ≡ true
  unfolding validate_plan
  user_defined_plans_complete plans p v h i =
      has_property svc.plan_variables p.service_properties v
        (ground (arith, user_plan_valid plans p h i))

  find_member :
      (c : ServicePlan → Bool) (plans : List ServicePlan) (p : ServicePlan)
      → find c plans ≡ some p
      → Memᴰ p plans
  find_member c [] p h = absurd (ground (arith, h))
  find_member c (q ∷ plans) p h = elim (Bool-cases (c q)) [
    | inl hit ↦ head (ground (arith, h, hit))
    | inr miss ↦ tail (find_member c plans p (ground (arith, h, miss)))
  ]

  -- The plan that a request gets is one of the catalog entry of its service and has the id that was
  -- asked for.
  pub get_plan_by_id_sound :
      (plan_id : String) (p : ServicePlan)
      → get_plan_by_id x svc plan_id ≡ ok p
      → (entry : Service) × (catalog_entry x svc ≡ ok entry) × Memᴰ p entry.plans × (p.id ≡ plan_id)
  unfolding get_plan_by_id
  get_plan_by_id_sound plan_id p h = elim (Result-cases (catalog_entry x svc)) [
    | inr (e, refused) ↦ absurd (ground (arith, h, refused))
    | inl (entry, e) ↦
        (let found : find (has_plan_id plan_id) entry.plans ≡ some p = ground (arith, h, e) in
          (
            entry,
            e,
            find_member (has_plan_id plan_id) entry.plans p found,
            (eq_iff p.id plan_id).0 (find_sound (has_plan_id plan_id) entry.plans p found),
          ))
  ]
