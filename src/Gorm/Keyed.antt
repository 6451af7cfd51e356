-- ===== src/Gorm/Keyed.antt =====
-- A table whose primary key is a text that the program sets: it acts as a finite map.
use cloud_service_broker.Prelude.{
  ◌≡◌, refl, ap, inl, inr, String, Bool, false, Option, none, some, List, [], ◌∷◌, arith, ◌==◌,
  eq_iff, if◌then◌else◌, or_else,
}
use cloud_service_broker.Prelude.Rows.{find, remove, upsert, find-append, find_sound}
use cloud_service_broker.Outcome.{ok, is_ok, Result-cases}
use cloud_service_broker.Gorm.{Gorm}

abbrev pub KeyedGorm : {Row : Type 0} → (Row → String) → Type 1
KeyedGorm {Row} key = Gorm Row (λ a b. key a == key b) (λ _ r. r)

module _ {Row : Type 0} (key : Row → String) where
  -- `WHERE id = ?`
  abbrev pub has_key : String → Row → Bool
  has_key id r = key r == id

  find-upsert :
      (id : String) (r : Row) (xs : List Row)
      → find (has_key id) (upsert (λ a b. key a == key b) r xs)
        ≡ (if key r == id then some r else find (has_key id) xs)
  find-upsert id r [] = refl
  find-upsert id r (x ∷ xs) =
      ground
        (arith, find-upsert id r xs, eq_iff (key r) (key x), eq_iff (key r) id, eq_iff (key x) id)

  find-remove :
      (id k : String) (xs : List Row)
      → find (has_key id) (remove (has_key k) xs) ≡ (if k == id then none else find (has_key id) xs)
  find-remove id k [] = ground arith
  find-remove id k (x ∷ xs) =
      ground (arith, find-remove id k xs, eq_iff k id, eq_iff (key x) k, eq_iff (key x) id)

module _ {Row : Type 0} (key : Row → String) (g : KeyedGorm key) where
  -- The row of a key, if there is one.
  abbrev pub row_at : String → g.Table → Option Row
  row_at id t = find (has_key key id) (g.live t)

  pub key-row_at : (id : String) (t : g.Table) (r : Row) → row_at id t ≡ some r → key r ≡ id
  key-row_at id t r h = (eq_iff (key r) id).0 (find_sound (has_key key id) (g.live t) r h)

  pub row_at-create :
      (id : String) (r : Row) (t : g.Table)
      → (g.create r t).0 ≡ ok tt
      → row_at id (g.create r t).1 ≡ or_else (row_at id t) (if key r == id then some r else none)
  row_at-create id r t h =
      let (n, e) = g.create_ok r t h in rw e (find-append (has_key key id) (g.live t) _)

  pub row_at-save :
      (id : String) (r : Row) (t : g.Table)
      → (g.save r t).0 ≡ ok tt
      → row_at id (g.save r t).1 ≡ (if key r == id then some r else row_at id t)
  row_at-save id r t h = rw (g.save_ok r t (λ n. refl) h) (find-upsert key id r (g.live t))

  pub row_at-delete :
      (id k : String) (t : g.Table)
      → (g.delete (has_key key k) t).0 ≡ ok tt
      → row_at id (g.delete (has_key key k) t).1 ≡ (if k == id then none else row_at id t)
  row_at-delete id k t h = rw (g.delete_ok _ t h) (find-remove key id k (g.live t))

  -- A write that fails leaves every row.
  pub row_at-create_failed :
      (id : String) (r : Row) (t : g.Table)
      → is_ok (g.create r t).0 ≡ false
      → row_at id (g.create r t).1 ≡ row_at id t
  row_at-create_failed id r t h = elim (Result-cases (g.create r t).0) [
    | inl (u, e) ↦ absurd (ground (arith, h, e))
    | inr (x, e) ↦ ap (find (has_key key id)) (g.create_err r t x e)
  ]

  pub row_at-save_failed :
      (id : String) (r : Row) (t : g.Table)
      → is_ok (g.save r t).0 ≡ false
      → row_at id (g.save r t).1 ≡ row_at id t
  row_at-save_failed id r t h = elim (Result-cases (g.save r t).0) [
    | inl (u, e) ↦ absurd (ground (arith, h, e))
    | inr (x, e) ↦ ap (find (has_key key id)) (g.save_err r t x e)
  ]

  pub row_at-delete_failed :
      (id : String) (c : Row → Bool) (t : g.Table)
      → is_ok (g.delete c t).0 ≡ false
      → row_at id (g.delete c t).1 ≡ row_at id t
  row_at-delete_failed id c t h = elim (Result-cases (g.delete c t).0) [
    | inl (u, e) ↦ absurd (ground (arith, h, e))
    | inr (x, e) ↦ ap (find (has_key key id)) (g.delete_err c t x e)
  ]

  -- A write leaves the rows of other keys, whether it fails or not.
  pub row_at-create_ne :
      (id : String) (r : Row) (t : g.Table)
      → (key r == id) ≡ false
      → row_at id (g.create r t).1 ≡ row_at id t
  row_at-create_ne id r t ne = elim (Result-cases (g.create r t).0) [
    | inl (u, e) ↦ ground (arith, ne, row_at-create id r t e)
    | inr (x, e) ↦ row_at-create_failed id r t (ground (arith, e))
  ]

  pub row_at-save_ne :
      (id : String) (r : Row) (t : g.Table)
      → (key r == id) ≡ false
      → row_at id (g.save r t).1 ≡ row_at id t
  row_at-save_ne id r t ne = elim (Result-cases (g.save r t).0) [
    | inl (u, e) ↦ ground (arith, ne, row_at-save id r t e)
    | inr (x, e) ↦ row_at-save_failed id r t (ground (arith, e))
  ]

  pub row_at-delete_ne :
      (id k : String) (t : g.Table)
      → (k == id) ≡ false
      → row_at id (g.delete (has_key key k) t).1 ≡ row_at id t
  row_at-delete_ne id k t ne = elim (Result-cases (g.delete (has_key key k) t).0) [
    | inl (u, e) ↦ ground (arith, ne, row_at-delete id k t e)
    | inr (x, e) ↦ row_at-delete_failed id (has_key key k) t (ground (arith, e))
  ]
