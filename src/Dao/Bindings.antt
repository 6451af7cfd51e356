-- ===== src/Dao/Bindings.antt =====
-- The table `service_binding_credentials`, whose key gorm generates.
use cloud_service_broker.Prelude.{ℕ, String, Bool, ◌||◌, ◌&&◌, ◌==◌, nat_eq}
use cloud_service_broker.Outcome.{Result}
use cloud_service_broker.Outcome.Exec.{Exec}
use cloud_service_broker.Models.{ServiceBindingCredentials}
use cloud_service_broker.Gorm.{Gorm}
use cloud_service_broker.Dao.Exists.{record_to_exists}

abbrev pub same_binding : ServiceBindingCredentials → ServiceBindingCredentials → Bool
same_binding a b = nat_eq a.id b.id

abbrev pub stamp_binding : ℕ → ServiceBindingCredentials → ServiceBindingCredentials
stamp_binding n r = record r { id = n }

abbrev pub BindingGorm : Type 1
BindingGorm = Gorm ServiceBindingCredentials same_binding stamp_binding

-- `WHERE id = ?`
abbrev pub has_id : ℕ → ServiceBindingCredentials → Bool
has_id n r = nat_eq r.id n

-- `WHERE binding_id = ?`
abbrev pub has_binding : String → ServiceBindingCredentials → Bool
has_binding binding_id r = r.binding_id == binding_id

-- `WHERE service_instance_id = ? AND binding_id = ?`
abbrev pub binds : String → String → ServiceBindingCredentials → Bool
binds instance_id binding_id r = r.service_instance_id == instance_id && r.binding_id == binding_id

-- gorm leaves the condition out if the record's key is zero.
abbrev pub by_primary_key : ℕ → ServiceBindingCredentials → Bool
by_primary_key id r = nat_eq id 0 || has_id id r

module _ (g : BindingGorm) where
  unfoldable pub create_service_binding_credentials :
      ServiceBindingCredentials → Exec g.Table (Unit {0})
  create_service_binding_credentials object = g.create object

  unfoldable pub save_service_binding_credentials :
      ServiceBindingCredentials → Exec g.Table (Unit {0})
  save_service_binding_credentials object = g.save object

  unfoldable pub delete_service_binding_credentials_by_service_instance_id_and_binding_id :
      String → String → Exec g.Table (Unit {0})
  delete_service_binding_credentials_by_service_instance_id_and_binding_id instance_id binding_id =
      g.delete (binds instance_id binding_id)

  unfoldable pub delete_service_binding_credentials_by_binding_id : String → Exec g.Table (Unit {0})
  delete_service_binding_credentials_by_binding_id binding_id = g.delete (has_binding binding_id)

  unfoldable pub delete_service_binding_credentials_by_id : ℕ → Exec g.Table (Unit {0})
  delete_service_binding_credentials_by_id id = g.delete (has_id id)

  unfoldable pub delete_service_binding_credentials :
      ServiceBindingCredentials → Exec g.Table (Unit {0})
  delete_service_binding_credentials record' = g.delete (by_primary_key record'.id)

  unfoldable pub get_service_binding_credentials_by_service_instance_id_and_binding_id :
      String → String → g.Table → Result ServiceBindingCredentials
  get_service_binding_credentials_by_service_instance_id_and_binding_id instance_id binding_id =
      g.first (binds instance_id binding_id)

  unfoldable pub exists_service_binding_credentials_by_service_instance_id_and_binding_id :
      String → String → g.Table → Result Bool
  unfolding get_service_binding_credentials_by_service_instance_id_and_binding_id record_to_exists
  exists_service_binding_credentials_by_service_instance_id_and_binding_id instance_id binding_id
        t =
      record_to_exists (
        get_service_binding_credentials_by_service_instance_id_and_binding_id instance_id binding_id
          t)

  unfoldable pub get_service_binding_credentials_by_binding_id :
      String → g.Table → Result ServiceBindingCredentials
  get_service_binding_credentials_by_binding_id binding_id = g.first (has_binding binding_id)

  unfoldable pub exists_service_binding_credentials_by_binding_id : String → g.Table → Result Bool
  unfolding get_service_binding_credentials_by_binding_id record_to_exists
  exists_service_binding_credentials_by_binding_id binding_id t =
      record_to_exists (get_service_binding_credentials_by_binding_id binding_id t)

  unfoldable pub get_service_binding_credentials_by_id :
      ℕ → g.Table → Result ServiceBindingCredentials
  get_service_binding_credentials_by_id id = g.first (has_id id)

  unfoldable pub exists_service_binding_credentials_by_id : ℕ → g.Table → Result Bool
  unfolding get_service_binding_credentials_by_id record_to_exists
  exists_service_binding_credentials_by_id id t =
      record_to_exists (get_service_binding_credentials_by_id id t)
