-- ===== src/Dao/Instances.antt =====
-- The table `service_instance_details`.
use cloud_service_broker.Prelude.{String, Bool, ◌||◌, ◌==◌}
use cloud_service_broker.Outcome.{Result}
use cloud_service_broker.Outcome.Exec.{Exec}
use cloud_service_broker.Models.{ServiceInstanceDetails}
use cloud_service_broker.Gorm.Keyed.{KeyedGorm, has_key}
use cloud_service_broker.Dao.Exists.{record_to_exists}

abbrev pub instance_key : ServiceInstanceDetails → String
instance_key r = r.id

abbrev pub InstanceGorm : Type 1
InstanceGorm = KeyedGorm instance_key

-- gorm leaves the condition out if the record's key is blank.
abbrev pub by_primary_key : String → ServiceInstanceDetails → Bool
by_primary_key id r = id == "" || has_key instance_key id r

module _ (g : InstanceGorm) where
  unfoldable pub create_service_instance_details : ServiceInstanceDetails → Exec g.Table (Unit {0})
  create_service_instance_details object = g.create object

  unfoldable pub save_service_instance_details : ServiceInstanceDetails → Exec g.Table (Unit {0})
  save_service_instance_details object = g.save object

  unfoldable pub delete_service_instance_details_by_id : String → Exec g.Table (Unit {0})
  delete_service_instance_details_by_id id = g.delete (has_key instance_key id)

  unfoldable pub delete_service_instance_details : ServiceInstanceDetails → Exec g.Table (Unit {0})
  delete_service_instance_details record' = g.delete (by_primary_key record'.id)

  unfoldable pub get_service_instance_details_by_id :
      String → g.Table → Result ServiceInstanceDetails
  get_service_instance_details_by_id id = g.first (has_key instance_key id)

  unfoldable pub exists_service_instance_details_by_id : String → g.Table → Result Bool
  unfolding get_service_instance_details_by_id record_to_exists
  exists_service_instance_details_by_id id t =
      record_to_exists (get_service_instance_details_by_id id t)
