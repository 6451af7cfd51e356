-- ===== src/Models.antt =====
-- db_service/models: the rows of the database. `CreatedAt`, `UpdatedAt` and `DeletedAt` belong to
-- gorm and are not columns of the model.
use cloud_service_broker.Prelude.{String, ℕ}

pub record ServiceInstanceDetails : Type 0 where
  pub id : String
  pub name : String
  pub location : String
  pub url : String
  pub other_details : String
  pub service_id : String
  pub plan_id : String
  pub space_guid : String
  pub organization_guid : String
  pub operation_type : String
  pub operation_id : String

pub record ServiceBindingCredentials : Type 0 where
  pub id : ℕ
  pub other_details : String
  pub service_id : String
  pub service_instance_id : String
  pub binding_id : String

pub record ProvisionRequestDetails : Type 0 where
  pub id : ℕ
  pub service_instance_id : String
  pub request_details : String

pub record TerraformDeployment : Type 0 where
  pub id : String
  pub workspace : String
  pub last_operation_type : String
  pub last_operation_state : String
  pub last_operation_message : String

abbrev pub provision_operation_type : String
provision_operation_type = "provision"

abbrev pub deprovision_operation_type : String
deprovision_operation_type = "deprovision"

abbrev pub update_operation_type : String
update_operation_type = "update"

abbrev pub clear_operation_type : String
clear_operation_type = ""
