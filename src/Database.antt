-- ===== src/Database.antt =====
-- db_service/migrations.go: the schema migrations that run before the broker starts.
pub mod Connection
pub mod Laws
pub mod Fresh
use cloud_service_broker.Prelude.{
  String, ℕ, zero, suc, Bool, true, false, List, [], ◌∷◌, ◌==◌, nat_eq, leb, if◌then◌else◌,
}
use cloud_service_broker.Prelude.Int.{ℤ, pos, negsuc}
use cloud_service_broker.Outcome.{Result, ok, err, ◌>>=◌, plain, wrapped}
use cloud_service_broker.Outcome.Exec.{Exec, pure, ◌>>◌}
use cloud_service_broker.Database.Connection.{Engine}

-- What a migration does: create tables, nothing, or change a column to text.
pub data Change : Type 0 where
  create_tables : List String → Change
  nothing widen_request_details : Change

-- `RunMigrations`'s list, by the names of the models' tables.
unfoldable pub migrations : List Change
migrations =
    create_tables (
      "service_instance_details" ∷ "service_binding_credentials" ∷ "provision_request_details"
      ∷ "plan_details" ∷ "migrations" ∷ [])
    ∷ create_tables ("cloud_operations" ∷ [])
    ∷ nothing
    ∷ create_tables ("service_instance_details" ∷ [])
    ∷ create_tables ("terraform_deployments" ∷ [])
    ∷ create_tables ("provision_request_details" ∷ [])
    ∷ widen_request_details
    ∷ []

abbrev pub num_migrations : ℕ
num_migrations = 7

unfoldable pub validate_last_migration : ℤ → Result (Unit {0})
validate_last_migration (negsuc n) = ok tt
validate_last_migration (pos n) =
    if leb num_migrations n
    then err (plain "The database you're connected to is newer than this tool supports.")
    else if nat_eq n 0
    then err (
        plain
          "Migration from broker versions <= 2.0 is no longer supported, upgrade using a v3.x broker then try again.")
    else ok tt

unfoldable pub drop : {A : Type 0} → ℕ → List A → List A
drop zero as' = as'
drop (suc n) [] = []
drop (suc n) (a ∷ as') = drop n as'

module _ (e : Engine) where
  open e use {Db}

  unfoldable pub auto_migrate_tables : List String → Exec Db (Unit {0})
  auto_migrate_tables tables =
      if e.dialect == "mysql"
      then e.auto_migrate "ENGINE=InnoDB CHARSET=utf8" tables
      else e.auto_migrate "" tables

  -- sqlite cannot change a column.
  unfoldable pub apply_change : Change → Exec Db (Unit {0})
  unfolding auto_migrate_tables
  apply_change (create_tables tables) = auto_migrate_tables tables
  apply_change nothing = pure tt
  apply_change widen_request_details =
      if e.dialect == "sqlite3" then pure tt else e.modify_column "request_details" "text"

  -- One round of the loop. The change and its record are written by `db`, beside the transaction `tx`.
  unfoldable pub run_one : ℕ → Change → Exec Db (Unit {0})
  run_one i change d =
      let (changed, d1) = apply_change change (e.begin d) in
      elim changed [
        | err x ↦ (err x, e.rollback d1)
        | ok _ ↦
            (let (saved, d2) = e.save_migration i d1 in
              elim saved [ err x ↦ (err x, e.rollback d2) | ok _ ↦ (ok tt, e.commit d2) ])
      ]

  unfoldable pub run_from : ℕ → List Change → Exec Db (Unit {0})
  run_from i [] = pure tt
  run_from i (change ∷ changes) = run_one i change >> run_from (suc i) changes

  -- The number of the last migration. The first row of an empty result panics; here it is an error.
  unfoldable pub last_migration : Db → Result ℤ
  last_migration d =
      if e.has_table "migrations" d
      then (elim (e.find_migrations d) [
        | err x ↦
            err
              (wrapped "Error getting last migration id even though migration table exists: " x "")
        | ok [] ↦ err (plain "index out of range")
        | ok (i ∷ _) ↦ ok i
      ])
      else ok (negsuc 0)

  -- From the migration behind the last one. A negative index panics; here it is an error.
  run_after : ℤ → Exec Db (Unit {0})
  run_after (pos n) d = run_from (suc n) (drop (suc n) migrations) d
  run_after (negsuc zero) d = run_from 0 migrations d
  run_after (negsuc (suc n)) d = (err (plain "index out of range"), d)

  unfoldable pub run_migrations : Exec Db (Unit {0})
  unfolding run_after
  run_migrations d =
      let checked : Result ℤ = (do
        last ← last_migration d
        valid ← validate_last_migration last
        ok last) in
      elim checked [ err x ↦ (err x, d) | ok last ↦ run_after last d ]
