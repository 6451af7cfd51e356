-- ===== src/Dao/Deployments.antt =====
-- The table `terraform_deployments`.
use cloud_service_broker.Prelude.{String, Bool, ◌||◌, ◌==◌}
use cloud_service_broker.Outcome.{Result}
use cloud_service_broker.Outcome.Exec.{Exec}
use cloud_service_broker.Models.{TerraformDeployment}
use cloud_service_broker.Gorm.Keyed.{KeyedGorm, has_key}
use cloud_service_broker.Dao.Exists.{record_to_exists}

abbrev pub deployment_key : TerraformDeployment → String
deployment_key r = r.id

abbrev pub DeploymentGorm : Type 1
DeploymentGorm = KeyedGorm deployment_key

-- gorm leaves the condition out if the record's key is blank.
abbrev pub by_primary_key : String → TerraformDeployment → Bool
by_primary_key id r = id == "" || has_key deployment_key id r

module _ (g : DeploymentGorm) where
  unfoldable pub create_terraform_deployment : TerraformDeployment → Exec g.Table (Unit {0})
  create_terraform_deployment object = g.create object

  unfoldable pub save_terraform_deployment : TerraformDeployment → Exec g.Table (Unit {0})
  save_terraform_deployment object = g.save object

  unfoldable pub delete_terraform_deployment_by_id : String → Exec g.Table (Unit {0})
  delete_terraform_deployment_by_id id = g.delete (has_key deployment_key id)

  unfoldable pub delete_terraform_deployment : TerraformDeployment → Exec g.Table (Unit {0})
  delete_terraform_deployment record' = g.delete (by_primary_key record'.id)

  unfoldable pub get_terraform_deployment_by_id : String → g.Table → Result TerraformDeployment
  get_terraform_deployment_by_id id = g.first (has_key deployment_key id)

  unfoldable pub exists_terraform_deployment_by_id : String → g.Table → Result Bool
  unfolding get_terraform_deployment_by_id record_to_exists
  exists_terraform_deployment_by_id id t = record_to_exists (get_terraform_deployment_by_id id t)
