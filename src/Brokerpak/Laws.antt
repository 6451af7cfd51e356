-- ===== src/Brokerpak/Laws.antt =====
-- Which services of a pak are registered, and under which names.
use mathlib.Core.List.{Memᴰ}
use mathlib.Core.List.Memᴰ.{head, tail}
use Prim.Native.String.{◌++◌ as append}
use cloud_service_broker.Prelude.{
  ◌≡◌, ◌⊎◌, refl, sym, ap, ◌∙◌, String, true, false, List, [], ◌∷◌, arith, inl, inr, Bool-cases,
  contains,
}
use cloud_service_broker.Outcome.{Result, ok, Result-cases}
use cloud_service_broker.Externals.{Externals}
use cloud_service_broker.StringSet
use cloud_service_broker.StringSet.Laws.{contains-new_string_set}
use cloud_service_broker.Validation.{Formats}
use cloud_service_broker.Validation.Fields.{FieldErrors}
use cloud_service_broker.Service.Definition.{ServiceDefinition}
use cloud_service_broker.Service.Provider.{ServiceProvider}
use cloud_service_broker.Tf.Definition.{TfServiceDefinitionV1}
use cloud_service_broker.Tf.Definition.Templates.{Files, load_action, load_templates}
use cloud_service_broker.Tf.Definition.Validity.{Printing}
use cloud_service_broker.Tf.Definition.Service.{to_service, service_of}
use cloud_service_broker.Tf.Definition.Laws.{to_service_inverse}
use cloud_service_broker.Brokerpak.{
  BrokerpakSourceConfig, prefixed, to_definitions_from, to_definitions, excluded_services_slice,
}

module _ {P : Type 0} (convert : TfServiceDefinitionV1 → Result (ServiceDefinition P)) where
  to_definitions_inverse :
      (ignored : StringSet.StringSet) (prefix : String) (svc : TfServiceDefinitionV1)
      (services : List TfServiceDefinitionV1) (out : List (ServiceDefinition P))
      → StringSet.contains svc.id ignored ≡ false
      → to_definitions_from convert ignored prefix (svc ∷ services) ≡ ok out
      → (sd : ServiceDefinition P) × (rest : List (ServiceDefinition P)) × (convert
            (prefixed convert prefix svc)
          ≡ ok sd)
        × (to_definitions_from convert ignored prefix services ≡ ok rest)
        × (out ≡ sd ∷ rest)
  unfolding to_definitions_from
  to_definitions_inverse ignored prefix svc services out taken h =
      elim (Result-cases (convert (prefixed convert prefix svc))) [
        | inr (e, failed) ↦ absurd (ground (arith, h, taken, failed))
        | inl (sd, made) ↦
            elim (Result-cases (to_definitions_from convert ignored prefix services)) [
              | inr (e, failed) ↦ absurd (ground (arith, h, taken, made, failed))
              | inl (rest, others) ↦
                  (sd, rest, made, others, ground (arith, h, taken, made, others))
            ]
      ]

  to_definitions_ignored :
      (ignored : StringSet.StringSet) (prefix : String) (svc : TfServiceDefinitionV1)
      (services : List TfServiceDefinitionV1)
      → StringSet.contains svc.id ignored ≡ true
      → to_definitions_from convert ignored prefix (svc ∷ services)
        ≡ to_definitions_from convert ignored prefix services
  unfolding to_definitions_from
  to_definitions_ignored ignored prefix svc services left = rw left refl

  -- A service that is registered, with the definition in the pak that it comes from.
  abbrev pub IsFrom :
      StringSet.StringSet → String → List TfServiceDefinitionV1 → ServiceDefinition P → Type 0
  IsFrom ignored prefix services sd =
      (svc : TfServiceDefinitionV1) × Memᴰ svc services
      × (StringSet.contains svc.id ignored ≡ false)
      × (convert (prefixed convert prefix svc) ≡ ok sd)

  further :
      (ignored : StringSet.StringSet) (prefix : String) (svc : TfServiceDefinitionV1)
      (services : List TfServiceDefinitionV1) (sd : ServiceDefinition P)
      → IsFrom ignored prefix services sd
      → IsFrom ignored prefix (svc ∷ services) sd
  further ignored prefix svc services sd (origin, i, taken, made) = (origin, tail i, taken, made)

  nothing_from :
      (ignored : StringSet.StringSet) (prefix : String) (out : List (ServiceDefinition P))
      → to_definitions_from convert ignored prefix [] ≡ ok out
      → out ≡ []
  unfolding to_definitions_from
  nothing_from ignored prefix out h = ground (arith, h)

  split_member :
      (sd one : ServiceDefinition P) (rest : List (ServiceDefinition P))
      → Memᴰ sd (one ∷ rest)
      → (sd ≡ one) ⊎ Memᴰ sd rest
  split_member sd one rest (head own) = inl own
  split_member sd one rest (tail i) = inr i

  no_member :
      (sd : ServiceDefinition P) (out : List (ServiceDefinition P)) → out ≡ [] → ¬ Memᴰ sd out
  no_member sd [] h i = elim i [ ]
  no_member sd (one ∷ rest) h i = absurd (ground (arith, h))

  one_more :
      (ignored : StringSet.StringSet) (prefix : String) (svc : TfServiceDefinitionV1)
      (services : List TfServiceDefinitionV1) (sd one : ServiceDefinition P)
      (rest : List (ServiceDefinition P))
      → StringSet.contains svc.id ignored ≡ false
      → convert (prefixed convert prefix svc) ≡ ok one
      → (Memᴰ sd rest → IsFrom ignored prefix services sd)
      → (sd ≡ one) ⊎ Memᴰ sd rest
      → IsFrom ignored prefix (svc ∷ services) sd
  one_more ignored prefix svc services sd one rest taken made others (inl own) =
      (svc, head refl, taken, made ∙ ap (λ d. ok d) (sym own))
  one_more ignored prefix svc services sd one rest taken made others (inr i) =
      further ignored prefix svc services sd (others i)

  to_definitions-IsFrom :
      (ignored : StringSet.StringSet) (prefix : String) (services : List TfServiceDefinitionV1)
      (out : List (ServiceDefinition P)) (sd : ServiceDefinition P)
      → to_definitions_from convert ignored prefix services ≡ ok out
      → Memᴰ sd out
      → IsFrom ignored prefix services sd
  to_definitions-IsFrom ignored prefix [] out sd h i =
      absurd (no_member sd out (nothing_from ignored prefix out h) i)
  to_definitions-IsFrom ignored prefix (svc ∷ services) out sd h i =
      elim (Bool-cases (StringSet.contains svc.id ignored)) [
        | inl left ↦ further ignored prefix svc services sd (
            to_definitions-IsFrom ignored prefix services out sd
              (sym (to_definitions_ignored ignored prefix svc services left) ∙ h) i)
        | inr taken ↦
            (let (one, rest, made, others, same) =
                to_definitions_inverse ignored prefix svc services out taken h in
              one_more ignored prefix svc services sd one rest taken made
                (to_definitions-IsFrom ignored prefix services rest sd others)
                (split_member sd one rest (rw same at i)))
      ]

load_templates_keeps :
    (files : Files) (tfb loaded : TfServiceDefinitionV1)
    → load_templates files tfb ≡ ok loaded
    → (loaded.id ≡ tfb.id) × (loaded.name ≡ tfb.name)
unfolding load_templates
load_templates_keeps files tfb loaded h =
    elim (Result-cases (load_action files "." tfb.bind_settings)) [
      | inr (e, failed) ↦ absurd (ground (arith, h, failed))
      | inl (b, bound) ↦ elim (Result-cases (load_action files "." tfb.provision_settings)) [
        | inr (e, failed) ↦ absurd (ground (arith, h, bound, failed))
        | inl (p, provisioned) ↦ ground (arith, h, bound, provisioned)
      ]
    ]

module _ {P : Type 0} (quote : String → String)
    (provider_of : TfServiceDefinitionV1 → ServiceProvider P) (x : Externals) (fe : FieldErrors)
    (formats : Formats) (p : Printing) (files : Files) where
  abbrev pub converter : TfServiceDefinitionV1 → Result (ServiceDefinition P)
  converter = to_service quote provider_of x fe formats p files

  converted_keeps :
      (tfb : TfServiceDefinitionV1) (sd : ServiceDefinition P)
      → converter tfb ≡ ok sd
      → (sd.id ≡ tfb.id) × (sd.name ≡ tfb.name)
  unfolding service_of
  converted_keeps tfb sd h =
      let (loaded, done, _, same) =
        to_service_inverse fe p formats quote provider_of x files tfb sd h in
      let (own, named) = load_templates_keeps files tfb loaded done in
      (
        ap (λ (d : ServiceDefinition P). d.id) same ∙ own,
        ap (λ (d : ServiceDefinition P). d.name) same ∙ named,
      )

  -- Each service that a pak registers comes from a definition of the pak: it has the definition's id, which is
  -- not one of those that the configuration excludes, and the definition's name behind the prefix of the
  -- configuration.
  pub to_definitions_excluded :
      (split : String → List String) (config : BrokerpakSourceConfig)
      (services : List TfServiceDefinitionV1) (out : List (ServiceDefinition P))
      (sd : ServiceDefinition P)
      → to_definitions converter x split config services ≡ ok out
      → Memᴰ sd out
      → (contains sd.id (excluded_services_slice x split config) ≡ false)
        × ((svc : TfServiceDefinitionV1) × Memᴰ svc services
            × (sd.id ≡ svc.id)
            × (sd.name ≡ append config.service_prefix svc.name))
  unfolding to_definitions
  to_definitions_excluded split config services out sd h i =
      let listed = excluded_services_slice x split config in
      let (svc, j, taken, made) =
        to_definitions-IsFrom converter (StringSet.new_string_set listed) config.service_prefix
          services out sd h i in
      let (own, named) = converted_keeps (prefixed converter config.service_prefix svc) sd made in
      let free : contains svc.id listed ≡ false =
        sym (contains-new_string_set svc.id listed) ∙ taken in
      (rw own free, (svc, j, own, named))
