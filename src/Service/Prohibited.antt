-- ===== src/Service/Prohibited.antt =====
-- Which updates `ServiceDefinition.AllowedUpdate` refuses.
use mathlib.Core.List.{Memᴰ}
use mathlib.Core.List.Memᴰ.{head, tail}
use cloud_service_broker.Prelude.{
  ◌≡◌, ◌≢◌, ap, inl, inr, true, false, List, [], ◌∷◌, arith, ◌==◌, is_some, Option-cases,
}
use cloud_service_broker.Prelude.StringMap.{lookup}
use cloud_service_broker.Outcome.{ok}
use cloud_service_broker.Json.{Object}
use cloud_service_broker.Externals.{Externals}
use cloud_service_broker.Service.Schema.{BrokerVariable}
use cloud_service_broker.Service.Definition.{ServiceDefinition}
use cloud_service_broker.Service.Variables.{UpdateDetails, prohibited, allowed_update}

prohibited_complete :
    (vs : List BrokerVariable) (out : Object) (v : BrokerVariable)
    → Memᴰ v vs
    → v.prohibit_update ≡ true
    → is_some (lookup v.field_name out) ≡ true
    → prohibited vs out ≡ true
unfolding prohibited
prohibited_complete [] out v i banned set = elim i [ ]
prohibited_complete (w ∷ vs) out v (head p) banned set = ground (
  arith,
  ap (λ u. u.prohibit_update) p,
  ap (λ u. is_some (lookup u.field_name out)) p,
  banned,
  set,
)
prohibited_complete (w ∷ vs) out v (tail i) banned set =
    ground (arith, prohibited_complete vs out v i banned set)

pub allowed_update_prohibited :
    {P : Type 0} (x : Externals) (svc : ServiceDefinition P) (details : UpdateDetails)
    (v : BrokerVariable)
    → (details.raw_parameters == "") ≡ false
    → Memᴰ v svc.provision_input_variables
    → v.prohibit_update ≡ true
    → is_some (lookup v.field_name (x.unmarshal_object details.raw_parameters).0) ≡ true
    → allowed_update x svc details ≢ ok true
unfolding allowed_update
allowed_update_prohibited x svc details v given i banned set h =
    let out = (x.unmarshal_object details.raw_parameters).0 in
    let refused = prohibited_complete svc.provision_input_variables out v i banned set in
    elim (Option-cases (x.unmarshal_object details.raw_parameters).1) [
      | inl clean ↦ ground (arith, h, given, clean, refused)
      | inr (e, undecoded) ↦ ground (arith, h, given, undecoded)
    ]
