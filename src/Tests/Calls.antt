-- ===== src/Tests/Calls.antt =====
-- Calls that change the tables.
use mathlib.Core.List.Memᴰ.{head}
use cloud_service_broker.Prelude.{
  String, ◌≤◌, is_some, Option, ◌≡◌, ◌≢◌, refl, true, none, some, [], ◌∷◌,
}
use cloud_service_broker.Outcome.{
  Error, ok, err, wrapped, plain, binding_does_not_exist, non_updatable_parameter,
}
use cloud_service_broker.Json.{text, Object}
use cloud_service_broker.Models.{ServiceInstanceDetails, ServiceBindingCredentials}
use cloud_service_broker.VarContext.{VarContext}
use cloud_service_broker.Service.Provider.{ServiceProvider}
use cloud_service_broker.Service.Definition.{ServiceDefinition}
use cloud_service_broker.Broker.State.{State}
use cloud_service_broker.Broker.View.{instance_row, binding_row}
use cloud_service_broker.Broker.Provision.{record_instance, ProvisionedServiceSpec, provision}
use cloud_service_broker.Broker.Provision.Records.{provision_records}
use cloud_service_broker.Broker.Deprovision.{
  record_deprovision, DeprovisionServiceSpec, deprovision,
}
use cloud_service_broker.Broker.Deprovision.Records.{
  row_after, named, deprovision_records, deprovision_failed,
}
use cloud_service_broker.Broker.Bind.{store_credentials, get_credential_name, bind}
use cloud_service_broker.Broker.Bind.Records.{bind_records}
use cloud_service_broker.Broker.Bind.Stored.{credential_path, put_for_app, bind_hides_credentials}
use cloud_service_broker.Broker.Unbind.{remove_credentials, unbind}
use cloud_service_broker.Broker.Update.{save_plan, UpdateServiceSpec, update}
use cloud_service_broker.Broker.Update.Records.{update_records, update_failed, update_prohibited}
use cloud_service_broker.Broker.Reachable.{
  Reachable, initial, next, bound, reachable-HasUniqueBindings, unbind_removes,
}
use cloud_service_broker.Prelude.Rows.{count}
use cloud_service_broker.Dao.Bindings.{
  get_service_binding_credentials_by_service_instance_id_and_binding_id,
  exists_service_binding_credentials_by_service_instance_id_and_binding_id,
  delete_service_binding_credentials, create_service_binding_credentials, binds,
}
use cloud_service_broker.Broker.Checks.{
  check_update, check_unbind, check_provision, check_deprovision, check_bind,
}
use cloud_service_broker.Dao.Instances.{
  save_service_instance_details, get_service_instance_details_by_id,
  exists_service_instance_details_by_id, create_service_instance_details,
}
use cloud_service_broker.Dao.Requests.{
  get_provision_request_details_by_instance_id, create_provision_request_details,
}
use cloud_service_broker.Registry.{get_service_by_id}
use cloud_service_broker.Service.Plans.{get_plan_by_id, catalog_entry}
use cloud_service_broker.Service.Variables.{
  update_variables, provision_variables, bind_variables, allowed_update,
}
use cloud_service_broker.VarContext.Builder.{merge_eval_result, cast_to}
use cloud_service_broker.Tests.Scene.{
  broker, service, region, vault, sentinel, empty, details_of, one_instance, to_provision,
  to_update, to_bind, to_unbind, to_deprovision,
}

abbrev provisioned : ProvisionedServiceSpec
provisioned = record { is_async = true; dashboard_url = ""; operation_data = "op" }

provision_returns : (provision broker "i" to_provision true empty).0 ≡ ok provisioned
unfolding provision check_provision exists_service_instance_details_by_id get_service_by_id
    get_plan_by_id provision_variables record_instance create_service_instance_details
    create_provision_request_details
provision_returns = refl

provision_records_example :
    (helper : ServiceProvider (Unit {0})) × (vars : VarContext) × (d : ServiceInstanceDetails)
    × (check_provision broker "i" to_provision true empty ≡ ok (helper, vars))
    × ((helper.provision vars tt).0 ≡ ok d)
    × (instance_row broker "i" empty ≡ none)
    × (instance_row broker "i" (provision broker "i" to_provision true empty).1
        ≡ some (record d {
          service_id = to_provision.service_id;
          id = "i";
          plan_id = to_provision.plan_id;
          space_guid = to_provision.space_guid;
          organization_guid = to_provision.organization_guid;
        }))
    × ("op" ≡ d.operation_id)
provision_records_example =
    provision_records broker "i" to_provision true empty provisioned provision_returns

abbrev deprovisioned : DeprovisionServiceSpec
deprovisioned = record { is_async = true; operation_data = "op" }

deprovision_returns :
    (deprovision broker "i" (to_deprovision "p") true (one_instance "")).0 ≡ ok deprovisioned
unfolding deprovision check_deprovision get_service_instance_details_by_id get_service_by_id
    get_plan_by_id get_provision_request_details_by_instance_id provision_variables
    merge_eval_result cast_to record_deprovision save_service_instance_details
deprovision_returns = refl

deprovision_records_example :
    (d : ServiceInstanceDetails) × (helper : ServiceProvider (Unit {0})) × (vars : VarContext)
    × (op : Option String) × (check_deprovision broker "i"
          (to_deprovision "p")
          true
          (one_instance "")
        ≡ ok (d, helper, vars))
    × ((helper.deprovision d (to_deprovision "p") vars tt).0 ≡ ok op)
    × (true ≡ is_some op)
    × ("op" ≡ named op)
    × (instance_row broker "i" (one_instance "") ≡ some d)
    × (instance_row broker "i"
          (deprovision broker "i" (to_deprovision "p") true (one_instance "")).1
        ≡ row_after true d "op")
deprovision_records_example =
    deprovision_records broker "i" (to_deprovision "p") true (one_instance "") deprovisioned
      deprovision_returns

abbrev no_plan : Error
no_plan = wrapped "Plan ID " (plain "q") " could not be found"

deprovision_fails :
    (deprovision broker "i" (to_deprovision "q") true (one_instance "")).0 ≡ err no_plan
unfolding deprovision check_deprovision get_service_instance_details_by_id get_service_by_id
    get_plan_by_id catalog_entry
deprovision_fails = refl

deprovision_failed_example :
    instance_row broker "i" (deprovision broker "i" (to_deprovision "q") true (one_instance "")).1
    ≡ instance_row broker "i" (one_instance "")
deprovision_failed_example =
    deprovision_failed broker "i" "i" (to_deprovision "q") true (one_instance "") no_plan
      deprovision_fails

abbrev reference : Object
reference = ("credhub-ref", text "/c/csb/store/b/secrets-and-services") ∷ []

bind_returns : (bind broker "i" "b" to_bind (one_instance "")).0 ≡ ok reference
unfolding bind check_bind exists_service_binding_credentials_by_service_instance_id_and_binding_id
    get_service_instance_details_by_id get_service_by_id get_plan_by_id bind_variables
    create_service_binding_credentials store_credentials get_credential_name
bind_returns = refl

bind_records_example :
    (d : ServiceInstanceDetails) × (svc : ServiceDefinition (Unit {0})) × (vars : VarContext)
    × (creds : Object) × (r : ServiceBindingCredentials) × (check_bind broker "i" "b" to_bind
          (one_instance "")
        ≡ ok (d, svc, vars))
    × ((svc.provider.bind vars tt).0 ≡ ok creds)
    × (broker.externals.marshal_object creds ≡ ok r.other_details)
    × (binding_row broker "i" "b" (one_instance "") ≡ none)
    × (binding_row broker "i" "b" (bind broker "i" "b" to_bind (one_instance "")).1 ≡ some r)
    × (r.service_id ≡ "s")
bind_records_example = bind_records broker "i" "b" to_bind (one_instance "") reference bind_returns

bind_hides_credentials_example :
    (d : ServiceInstanceDetails) × (svc : ServiceDefinition (Unit {0})) × (vars : VarContext)
    × (r : ServiceBindingCredentials) × (built : Object) × (check_bind broker "i" "b" to_bind
          (one_instance "")
        ≡ ok (d, svc, vars))
    × (r.service_instance_id ≡ "i")
    × (r.binding_id ≡ "b")
    × ((svc.provider.build_instance_credentials r d tt).0 ≡ ok built)
    × (reference ≡ ("credhub-ref", text (credential_path svc.name "b")) ∷ [])
    × ((vault.put (credential_path svc.name "b") built tt).0 ≡ ok tt)
    × ((bind broker "i" "b" to_bind (one_instance "")).1.creds
        ≡ (put_for_app broker vault (credential_path svc.name "b") to_bind built tt).1)
    × ((put_for_app broker vault (credential_path svc.name "b") to_bind built tt).0 ≡ ok tt)
bind_hides_credentials_example =
    bind_hides_credentials broker "i" "b" to_bind (one_instance "") reference vault refl
      bind_returns

abbrev bound_once : State broker
bound_once = (bind broker "i" "b" to_bind (one_instance "")).1

abbrev reached : Reachable broker sentinel bound_once
reached =
    next (one_instance "") bound_once (initial (one_instance "") refl)
      (bound "i" "b" to_bind (one_instance ""))

reachable-HasUniqueBindings_example :
    count (binds "i" "b") (broker.binding_gorm.live bound_once.bindings) ≤ 1
reachable-HasUniqueBindings_example =
    reachable-HasUniqueBindings broker sentinel bound_once reached "i" "b"

unbind_returns : (unbind broker "i" "b" to_unbind bound_once).0 ≡ ok tt
unfolding unbind check_unbind get_service_by_id
    get_service_binding_credentials_by_service_instance_id_and_binding_id bind check_bind
    exists_service_binding_credentials_by_service_instance_id_and_binding_id
    get_service_instance_details_by_id get_plan_by_id bind_variables
    create_service_binding_credentials store_credentials
    get_provision_request_details_by_instance_id remove_credentials
    delete_service_binding_credentials
unbind_returns = refl

unbind_removes_example :
    binding_row broker "i" "b" (unbind broker "i" "b" to_unbind bound_once).1 ≡ none
unbind_removes_example =
    unbind_removes broker sentinel "i" "b" to_unbind bound_once reached unbind_returns

unbind_fails : (unbind broker "i" "c" to_unbind bound_once).0 ≡ err binding_does_not_exist
unfolding unbind check_unbind get_service_by_id
    get_service_binding_credentials_by_service_instance_id_and_binding_id bind check_bind
    exists_service_binding_credentials_by_service_instance_id_and_binding_id
    get_service_instance_details_by_id get_plan_by_id bind_variables
    create_service_binding_credentials store_credentials
unbind_fails = refl

abbrev updated : UpdateServiceSpec
updated = record { is_async = true; dashboard_url = ""; operation_data = "op" }

update_returns : (update broker "i" (to_update "") true (one_instance "")).0 ≡ ok updated
unfolding update check_update get_service_instance_details_by_id get_service_by_id get_plan_by_id
    allowed_update get_provision_request_details_by_instance_id update_variables merge_eval_result
    cast_to save_plan save_service_instance_details
update_returns = refl

update_records_example :
    (d new : ServiceInstanceDetails) × (helper : ServiceProvider (Unit {0})) × (vars : VarContext)
    × (check_update broker "i" (to_update "") true (one_instance "") ≡ ok (d, helper, vars))
    × ((helper.update vars tt).0 ≡ ok new)
    × (instance_row broker "i" (one_instance "") ≡ some d)
    × (instance_row broker "i" (update broker "i" (to_update "") true (one_instance "")).1
        ≡ some (record d { plan_id = new.plan_id }))
    × ("op" ≡ new.operation_id)
update_records_example =
    update_records broker "i" (to_update "") true (one_instance "") updated update_returns

abbrev prohibited : Error
prohibited = non_updatable_parameter

update_fails : (update broker "i" (to_update "in_europe") true (one_instance "")).0 ≡ err prohibited
unfolding update check_update get_service_instance_details_by_id get_service_by_id get_plan_by_id
    catalog_entry allowed_update
update_fails = refl

update_failed_example :
    instance_row broker "i" (update broker "i" (to_update "in_europe") true (one_instance "")).1
    ≡ instance_row broker "i" (one_instance "")
update_failed_example =
    update_failed broker "i" "i" (to_update "in_europe") true (one_instance "") prohibited
      update_fails

update_prohibited_example :
    ((update broker "i" (to_update "in_europe") true (one_instance "")).1 ≡ one_instance "")
    × ((update broker "i" (to_update "in_europe") true (one_instance "")).0 ≢ ok updated)
unfolding get_service_by_id allowed_update
update_prohibited_example =
    update_prohibited broker "i" (to_update "in_europe") true (one_instance "") (details_of "")
      service region updated refl refl (head refl) refl refl refl
