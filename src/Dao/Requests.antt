-- ===== src/Dao/Requests.antt =====
-- The table `provision_request_details`, whose key gorm generates.
use cloud_service_broker.Prelude.{ℕ, String, Bool, ◌||◌, ◌==◌, nat_eq}
use cloud_service_broker.Outcome.{Result}
use cloud_service_broker.Outcome.Exec.{Exec}
use cloud_service_broker.Models.{ProvisionRequestDetails}
use cloud_service_broker.Gorm.{Gorm}
use cloud_service_broker.Dao.Exists.{record_to_exists}

abbrev pub same_request : ProvisionRequestDetails → ProvisionRequestDetails → Bool
same_request a b = nat_eq a.id b.id

abbrev pub stamp_request : ℕ → ProvisionRequestDetails → ProvisionRequestDetails
stamp_request n r = record r { id = n }

abbrev pub RequestGorm : Type 1
RequestGorm = Gorm ProvisionRequestDetails same_request stamp_request

-- `WHERE id = ?`
abbrev pub has_id : ℕ → ProvisionRequestDetails → Bool
has_id n r = nat_eq r.id n

-- `WHERE service_instance_id = ?`
abbrev pub of_instance : String → ProvisionRequestDetails → Bool
of_instance instance_id r = r.service_instance_id == instance_id

-- gorm leaves the condition out if the record's key is zero.
abbrev pub by_primary_key : ℕ → ProvisionRequestDetails → Bool
by_primary_key id r = nat_eq id 0 || has_id id r

module _ (g : RequestGorm) where
  unfoldable pub create_provision_request_details :
      ProvisionRequestDetails → Exec g.Table (Unit {0})
  create_provision_request_details object = g.create object

  unfoldable pub save_provision_request_details : ProvisionRequestDetails → Exec g.Table (Unit {0})
  save_provision_request_details object = g.save object

  unfoldable pub delete_provision_request_details_by_id : ℕ → Exec g.Table (Unit {0})
  delete_provision_request_details_by_id id = g.delete (has_id id)

  unfoldable pub delete_provision_request_details :
      ProvisionRequestDetails → Exec g.Table (Unit {0})
  delete_provision_request_details record' = g.delete (by_primary_key record'.id)

  unfoldable pub get_provision_request_details_by_id : ℕ → g.Table → Result ProvisionRequestDetails
  get_provision_request_details_by_id id = g.first (has_id id)

  unfoldable pub get_provision_request_details_by_instance_id :
      String → g.Table → Result ProvisionRequestDetails
  get_provision_request_details_by_instance_id instance_id = g.first (of_instance instance_id)

  unfoldable pub exists_provision_request_details_by_id : ℕ → g.Table → Result Bool
  unfolding get_provision_request_details_by_id record_to_exists
  exists_provision_request_details_by_id id t =
      record_to_exists (get_provision_request_details_by_id id t)
