-- ===== src/Tf/Provider/Imports.antt =====
-- The resources that a call of `importCreate` gives to the runner.
use cloud_service_broker.Prelude.{
  ◌≡◌, ◌≤◌, refl, inl, inr, ℕ, true, some, List, [], ◌∷◌, arith, length, nat_eq, Option-cases,
}
use cloud_service_broker.Prelude.StringMap.{lookup}
use cloud_service_broker.Outcome.{ok}
use cloud_service_broker.Json.{Value, Object}
use cloud_service_broker.Tf.JobRunner.{ImportResource, TfJobRunner}
use cloud_service_broker.Tf.Definition.{ImportVariable}
use cloud_service_broker.Tf.Provider.{import_params, all_given}

module _ (r : TfJobRunner) where
  -- Each variable has a value, and gives one resource that is this value's text, in this order.
  abbrev pub AreImported : List ImportVariable → Object → List ImportResource → Type 0
  AreImported [] vars given = given ≡ []
  AreImported (v ∷ vs) vars given =
      (value : Value) × (rest : List ImportResource) × (lookup v.name vars ≡ some value)
      × (given
          ≡ record { tf_resource = v.tf_resource; iaas_resource = r.codecs.print_value value }
            ∷ rest)
      × AreImported vs vars rest

  length-import_params :
      (vs : List ImportVariable) (vars : Object) → length (import_params r vs vars) ≤ length vs
  unfolding import_params
  length-import_params [] vars = ground arith
  length-import_params (v ∷ vs) vars = elim (Option-cases (lookup v.name vars)) [
    | inl missing ↦ ground (arith, missing, length-import_params vs vars)
    | inr (value, found) ↦ ground (arith, found, length-import_params vs vars)
  ]

  import_params-AreImported :
      (vs : List ImportVariable) (vars : Object)
      → length (import_params r vs vars) ≡ length vs
      → AreImported vs vars (import_params r vs vars)
  unfolding import_params
  import_params-AreImported [] vars h = refl
  import_params-AreImported (v ∷ vs) vars h = elim (Option-cases (lookup v.name vars)) [
    | inl missing ↦ absurd (ground (arith, h, missing, length-import_params vs vars))
    | inr (value, found) ↦ (
      value,
      import_params r vs vars,
      found,
      ground (arith, found),
      import_params-AreImported vs vars (ground (arith, h, found)),
    )
  ]

  nat_eq_sound : (m n : ℕ) → nat_eq m n ≡ true → m ≡ n
  nat_eq_sound m n h = ground (arith, h)

  pub all_given-AreImported :
      (vs : List ImportVariable) (vars : Object)
      → all_given vs (import_params r vs vars) ≡ ok tt
      → AreImported vs vars (import_params r vs vars)
  unfolding all_given
  all_given-AreImported vs vars h =
      import_params-AreImported vs vars
        (nat_eq_sound (length (import_params r vs vars)) (length vs) (ground (arith, h)))
