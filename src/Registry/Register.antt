-- ===== src/Registry/Register.antt =====
-- `BrokerRegistry.Register`: what the registry holds, however services were registered.
use mathlib.Core.List.{Memᴰ}
use mathlib.Core.List.Memᴰ.{head, tail}
use cloud_service_broker.Prelude.{
  ◌≡◌, refl, sym, ap, String, true, none, some, List, [], ◌∷◌, arith, ◌==◌, eq_iff, inl, inr,
  Option-cases, Bool-cases, ◌∙◌,
}
use cloud_service_broker.Prelude.StringMap.{lookup, insert, lookup-insert}
use cloud_service_broker.Outcome.{Result, ok, err, plain, wrapped, Result-cases, is_ok}
use cloud_service_broker.Externals.{Externals}
use cloud_service_broker.Validation.{Formats}
use cloud_service_broker.Validation.Fields.{FieldErrors}
use cloud_service_broker.Service.Definition.{ServiceDefinition}
use cloud_service_broker.Service.Plans.{catalog_entry}
use cloud_service_broker.Service.Validity.{
  validate_definition, IsValidDefinition, validate_definition_sound,
}
use cloud_service_broker.Registry.{BrokerRegistry}

module _ (x : Externals) (fe : FieldErrors) (formats : Formats) {P : Type 0} where
  -- `log.Fatalf` ends the process; here it is an error, and nothing is registered.
  unfoldable pub register : ServiceDefinition P → BrokerRegistry P → Result (BrokerRegistry P)
  register service registry = elim (lookup service.name registry) [
    | some _ ↦ err (wrapped "Tried to register multiple instances of: " (plain service.name) "")
    | none ↦ elim (catalog_entry x service) [
      | err e ↦ err (wrapped "Error registering service " e service.name)
      | ok _ ↦ elim (validate_definition fe formats service) [
        | some e ↦ err (wrapped "Error validating service " (plain (fe.error_text e)) service.name)
        | none ↦ ok (insert service.name service registry)
      ]
    ]
  ]

  -- The calls that a start makes, one after another.
  unfoldable pub register_all :
      List (ServiceDefinition P) → BrokerRegistry P → Result (BrokerRegistry P)
  register_all [] registry = ok registry
  register_all (service ∷ services) registry = elim (register service registry) [
    | err e ↦ err e
    | ok registry' ↦ register_all services registry'
  ]

  -- Each service is kept under its own name, is valid, and has a catalog entry.
  abbrev pub IsSound : BrokerRegistry P → Type 0
  IsSound registry =
      (name : String) (sd : ServiceDefinition P)
      → lookup name registry ≡ some sd
      → (sd.name ≡ name) × IsValidDefinition fe formats sd × (is_ok (catalog_entry x sd) ≡ true)

  register_inverse :
      (service : ServiceDefinition P) (registry registry' : BrokerRegistry P)
      → register service registry ≡ ok registry'
      → (lookup service.name registry ≡ none)
        × IsValidDefinition fe formats service
        × (is_ok (catalog_entry x service) ≡ true)
        × (registry' ≡ insert service.name service registry)
  unfolding register
  register_inverse service registry registry' h =
      elim (Option-cases (lookup service.name registry)) [
        | inr (other, taken) ↦ absurd (ground (arith, h, taken))
        | inl free ↦ elim (Result-cases (catalog_entry x service)) [
          | inr (e, refused) ↦ absurd (ground (arith, h, free, refused))
          | inl (entry, listed) ↦ elim (Option-cases (validate_definition fe formats service)) [
            | inr (e, invalid) ↦ absurd (ground (arith, h, free, listed, invalid))
            | inl valid ↦ (
              free,
              validate_definition_sound fe formats service valid,
              rw listed refl,
              ground (arith, h, free, listed, valid),
            )
          ]
        ]
      ]

  register-IsSound :
      (service : ServiceDefinition P) (registry registry' : BrokerRegistry P)
      → IsSound registry
      → register service registry ≡ ok registry'
      → IsSound registry'
  register-IsSound service registry registry' sound h name sd found =
      let (free, valid, listed, same) = register_inverse service registry registry' h in
      let written = lookup-insert name service.name service registry in
      elim (Bool-cases (service.name == name)) [
        | inl own ↦
            (let new : service ≡ sd = ground (arith, found, own, same, written) in
              (
                sym (ap (λ s. s.name) new) ∙ (eq_iff service.name name).0 own,
                rw (← new) valid,
                rw (← new) listed,
              ))
        | inr other ↦ sound name sd (ground (arith, found, other, same, written))
      ]

  lookup-register :
      (service : ServiceDefinition P) (registry registry' : BrokerRegistry P) (name : String)
      (sd : ServiceDefinition P)
      → register service registry ≡ ok registry'
      → lookup name registry ≡ some sd
      → lookup name registry' ≡ some sd
  lookup-register service registry registry' name sd h found =
      let (free, _, _, same) = register_inverse service registry registry' h in
      ground (
        arith,
        free,
        found,
        same,
        lookup-insert name service.name service registry,
        eq_iff service.name name,
      )

  register_all_inverse :
      (service : ServiceDefinition P) (services : List (ServiceDefinition P))
      (registry out : BrokerRegistry P)
      → register_all (service ∷ services) registry ≡ ok out
      → (registry' : BrokerRegistry P) × (register service registry ≡ ok registry')
        × (register_all services registry' ≡ ok out)
  unfolding register_all
  register_all_inverse service services registry out h =
      elim (Result-cases (register service registry)) [
        | inr (e, refused) ↦ absurd (ground (arith, h, refused))
        | inl (registry', done) ↦ (registry', done, ground (arith, h, done))
      ]

  register_all_keeps :
      (services : List (ServiceDefinition P)) (registry out : BrokerRegistry P) (name : String)
      (sd : ServiceDefinition P)
      → register_all services registry ≡ ok out
      → lookup name registry ≡ some sd
      → lookup name out ≡ some sd
  unfolding register_all
  register_all_keeps [] registry out name sd h found = ground (arith, h, found)
  register_all_keeps (service ∷ services) registry out name sd h found =
      let (registry', one, rest) = register_all_inverse service services registry out h in
      register_all_keeps services registry' out name sd rest
        (lookup-register service registry registry' name sd one found)

  register_all-IsSound :
      (services : List (ServiceDefinition P)) (registry out : BrokerRegistry P)
      → IsSound registry
      → register_all services registry ≡ ok out
      → IsSound out
  unfolding register_all
  register_all-IsSound [] registry out sound h name sd found =
      sound name sd (ground (arith, h, found))
  register_all-IsSound (service ∷ services) registry out sound h name sd found =
      let (registry', one, rest) = register_all_inverse service services registry out h in
      register_all-IsSound services registry' out
        (register-IsSound service registry registry' sound one) rest name sd found

  register_all_holds :
      (services : List (ServiceDefinition P)) (registry out : BrokerRegistry P)
      (sd : ServiceDefinition P)
      → register_all services registry ≡ ok out
      → Memᴰ sd services
      → lookup sd.name out ≡ some sd
  register_all_holds [] registry out sd h i = elim i [ ]
  register_all_holds (service ∷ services) registry out sd h (tail i) =
      let (registry', one, rest) = register_all_inverse service services registry out h in
      register_all_holds services registry' out sd rest i
  register_all_holds (service ∷ services) registry out sd h (head e) =
      let (registry', one, rest) = register_all_inverse service services registry out h in
      let (_, _, _, same) = register_inverse service registry registry' one in
      register_all_keeps services registry' out sd.name sd rest (
        ground (
          arith,
          e,
          same,
          ap (λ s. s.name) e,
          lookup-insert sd.name service.name service registry,
          eq_iff service.name sd.name,
        ))

  -- When every registration of a start goes through, the registry has each of the services under its
  -- name, and whatever it has is kept under its own name, is valid, and has a catalog entry: its id is
  -- in the form of a UUID, its name is one that OSB allows, and each of its variables is valid.
  pub register_all_empty-IsSound :
      (services : List (ServiceDefinition P)) (registry : BrokerRegistry P)
      → register_all services [] ≡ ok registry
      → IsSound registry
        × ((sd : ServiceDefinition P) → Memᴰ sd services → lookup sd.name registry ≡ some sd)
  register_all_empty-IsSound services registry h = (
    register_all-IsSound services [] registry (λ name sd found. absurd (ground (arith, found))) h,
    λ sd i. register_all_holds services [] registry sd h i,
  )
