-- ===== src/Tests/Offers.antt =====
-- The services on offer.
use mathlib.Core.List.{Memᴰ}
use cloud_service_broker.Prelude.{
  ◌≡◌, ◌↔◌, refl, ap, inl, inr, String, true, [], ◌∷◌, ◌==◌, arith, Bool-cases,
}
use cloud_service_broker.Outcome.{ok}
use cloud_service_broker.Service.Definition.{ServiceDefinition}
use cloud_service_broker.Models.{ServiceInstanceDetails}
use cloud_service_broker.Broker.Ledger.{Change}
use cloud_service_broker.Broker.Refinement.{KeepsIdentity, ledger, step_refines}
use cloud_service_broker.Registry.{
  get_service_by_id, enabled_among, get_all_services, is_enabled, get_enabled_services,
}
use cloud_service_broker.Registry.Laws.{get_enabled_services_iff}
use cloud_service_broker.Broker.Provision.{provision}
use cloud_service_broker.Broker.Reachable.{provisioned}
use cloud_service_broker.Broker.Frame.{IsChangedAt, step-IsChangedAt}
use cloud_service_broker.Prelude.Sorting.{sort_by}
use cloud_service_broker.Service.Plans.{catalog_entry}
use cloud_service_broker.StringSet.{new_string_set, contains}
use cloud_service_broker.Tests.Scene.{world, service, broker, sentinel, empty, to_provision}

offers : get_enabled_services world broker.registry ≡ ok (service ∷ [])
unfolding get_enabled_services enabled_among get_all_services sort_by is_enabled catalog_entry
    contains new_string_set
offers = refl

get_enabled_services_iff_example : Memᴰ service (service ∷ []) ↔ (
    ((name : String) × Memᴰ (name, service) broker.registry) × (is_enabled world service ≡ ok true))
get_enabled_services_iff_example =
    get_enabled_services_iff world broker.registry (service ∷ []) service offers

step-IsChangedAt_example :
    (id : String) × IsChangedAt broker sentinel id empty
      (provision broker "i" to_provision true empty).1
step-IsChangedAt_example =
    step-IsChangedAt broker sentinel empty (provision broker "i" to_provision true empty).1
      (provisioned "i" to_provision true empty)

keeps_identity :
    (sid : String) (sd : ServiceDefinition (Unit {0}))
    → get_service_by_id broker.registry sid ≡ ok sd
    → KeepsIdentity sd.provider
unfolding get_service_by_id
keeps_identity sid sd found d new p h = elim (Bool-cases ("s" == sid)) [
  | inl own ↦
      (let same : sd ≡ service = ground (arith, found, own) in
        let done : (service.provider.update_instance_details d p).0 ≡ ok new = rw same at h in
        let kept : new ≡ d = ground (arith, done) in
        (
          ap (λ (n : ServiceInstanceDetails). n.id) kept,
          ap (λ (n : ServiceInstanceDetails). n.service_id) kept,
        ))
  | inr other ↦ absurd (ground (arith, found, other))
]

step_refines_example :
    Change (ledger broker empty) (ledger broker (provision broker "i" to_provision true empty).1)
step_refines_example =
    step_refines broker sentinel empty (provision broker "i" to_provision true empty).1
      keeps_identity (provisioned "i" to_provision true empty)
