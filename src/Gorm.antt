-- ===== src/Gorm.antt =====
-- github.com/jinzhu/gorm, which db_service/dao.go calls, as a parameter: the operations on one table
-- and what gorm documents of them. `live` lists the rows that are not soft-deleted, oldest first; any
-- operation may fail, and a failed write has changed nothing.
pub mod Memory
pub mod Keyed
use cloud_service_broker.Prelude.{◌≡◌, ℕ, Bool, false, true, some, none, List, [], ◌∷◌, ◌++◌}
use cloud_service_broker.Prelude.Rows.{find, remove, upsert}
use cloud_service_broker.Outcome.{Error, Result, ok, err, record_not_found}
use cloud_service_broker.Outcome.Exec.{Exec}

-- `gorm.IsRecordNotFoundError`
abbrev pub is_record_not_found_error : Error → Bool
is_record_not_found_error record_not_found = true
is_record_not_found_error _ = false

-- `same` compares primary keys. `stamp n` is the row as it is stored under the generated key `n`.
pub record Gorm (Row : Type 0) (same : Row → Row → Bool) (stamp : ℕ → Row → Row) : Type 1 where
  pub Table : Type 0
  pub live : Table → List Row
  -- `db.Where(c).First(&record)`
  pub first : (Row → Bool) → Table → Result Row
  -- `db.Create(object)`
  pub create : Row → Exec Table (Unit {0})
  -- `db.Save(object)`
  pub save : Row → Exec Table (Unit {0})
  -- `db.Where(c).Delete(&Row{})`
  pub delete : (Row → Bool) → Exec Table (Unit {0})
  pub first_ok :
      (c : Row → Bool) (t : Table) (r : Row) → first c t ≡ ok r → find c (live t) ≡ some r
  pub first_missing :
      (c : Row → Bool) (t : Table) (e : Error)
      → first c t ≡ err e
      → is_record_not_found_error e ≡ true
      → find c (live t) ≡ none
  pub create_ok :
      (r : Row) (t : Table)
      → (create r t).0 ≡ ok tt
      → (n : ℕ) × (live (create r t).1 ≡ live t ++ (stamp n r ∷ []))
  pub create_err :
      (r : Row) (t : Table) (e : Error) → (create r t).0 ≡ err e → live (create r t).1 ≡ live t
  -- Where the key is not generated.
  pub save_ok :
      (r : Row) (t : Table)
      → ((n : ℕ) → stamp n r ≡ r)
      → (save r t).0 ≡ ok tt
      → live (save r t).1 ≡ upsert same r (live t)
  pub save_err :
      (r : Row) (t : Table) (e : Error) → (save r t).0 ≡ err e → live (save r t).1 ≡ live t
  pub delete_ok :
      (c : Row → Bool) (t : Table)
      → (delete c t).0 ≡ ok tt
      → live (delete c t).1 ≡ remove c (live t)
  pub delete_err :
      (c : Row → Bool) (t : Table) (e : Error)
      → (delete c t).0 ≡ err e
      → live (delete c t).1 ≡ live t
