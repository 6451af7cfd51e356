-- ===== src/Database/Connection.antt =====
-- gorm on the schema, as a record of the calls that the migrations make and of their laws.
use mathlib.Core.List.{Memᴰ}
use cloud_service_broker.Prelude.{
  ◌≡◌, ◌⊎◌, String, ℕ, ◌<◌, Bool, Option, none, some, List, [], ◌∷◌, is_some,
}
use cloud_service_broker.Prelude.Int.{ℤ, pos, negsuc}
use cloud_service_broker.Outcome.{Result, ok}
use cloud_service_broker.Outcome.Exec.{Exec}

abbrev pub AllBelow : ℕ → List ℤ → Type 0
AllBelow i [] = Unit
AllBelow i (pos n ∷ l) = (n < i) × AllBelow i l
AllBelow i (negsuc n ∷ l) = AllBelow i l

pub record Engine : Type 1 where
  pub Db : Type 0
  pub dialect : String
  -- `AutoMigrate` with these table options
  pub auto_migrate : String → List String → Exec Db (Unit {0})
  -- `ModifyColumn` of a column of `provision_request_details`
  pub modify_column : String → String → Exec Db (Unit {0})
  pub has_table : String → Db → Bool
  -- the migrations' ids, the greatest first
  pub find_migrations : Db → Result (List ℤ)
  pub save_migration : ℕ → Exec Db (Unit {0})
  -- a transaction through which nothing is written
  pub begin : Db → Db
  pub commit : Db → Db
  pub rollback : Db → Db
  -- what the table of migrations holds, the greatest id first; none if there is no table
  pub history : Db → Option (List ℤ)
  pub has_table_history : (d : Db) → has_table "migrations" d ≡ is_some (history d)
  pub find_ok : (d : Db) (l : List ℤ) → find_migrations d ≡ ok l → history d ≡ some l
  pub save_ok :
      (i : ℕ) (d : Db) (l : List ℤ)
      → history d ≡ some l
      → AllBelow i l
      → (save_migration i d).0 ≡ ok tt
      → history (save_migration i d).1 ≡ some (pos i ∷ l)
  pub save_failed :
      (i : ℕ) (d : Db)
      → ((save_migration i d).0 ≡ ok tt) ⊎ (history (save_migration i d).1 ≡ history d)
  pub begin_keeps : (d : Db) → history (begin d) ≡ history d
  pub commit_keeps : (d : Db) → history (commit d) ≡ history d
  pub rollback_keeps : (d : Db) → history (rollback d) ≡ history d
  -- a table that there is keeps its rows
  pub auto_migrate_keeps :
      (o : String) (tables : List String) (d : Db) (l : List ℤ)
      → history d ≡ some l
      → history (auto_migrate o tables d).1 ≡ some l
  pub auto_migrate_creates :
      (o : String) (tables : List String) (d : Db)
      → history d ≡ none
      → Memᴰ "migrations" tables
      → (auto_migrate o tables d).0 ≡ ok tt
      → history (auto_migrate o tables d).1 ≡ some []
  pub auto_migrate_failed :
      (o : String) (tables : List String) (d : Db)
      → history d ≡ none
      → (history (auto_migrate o tables d).1 ≡ none)
        ⊎ (history (auto_migrate o tables d).1 ≡ some [])
  pub modify_column_keeps : (c t : String) (d : Db) → history (modify_column c t d).1 ≡ history d
