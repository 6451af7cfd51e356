-- ===== src/Database/Laws.antt =====
-- What runs of the migrations leave recorded, whatever fails.
use cloud_service_broker.Prelude.{
  ◌≡◌, refl, ◌∙◌, ap, ◌⊎◌, inl, inr, ℕ, zero, suc, ◌+◌, ◌≤◌, some, List, [], ◌∷◌, arith, length,
  Bool-cases, ◌==◌,
}
use cloud_service_broker.Prelude.Int.{ℤ, pos}
use cloud_service_broker.Outcome.{Error, Result, ok, err, Result-cases}
use cloud_service_broker.Database.Connection.{Engine, AllBelow}
use cloud_service_broker.Database.{
  Change, create_tables, nothing, widen_request_details, migrations, apply_change,
  auto_migrate_tables, run_one, run_from, drop, last_migration, validate_last_migration,
  run_migrations, run_after,
}

-- The first `n` migrations, the last one first.
abbrev pub first : ℕ → List ℤ
first zero = []
first (suc n) = pos n ∷ first n

first-AllBelow : (i n : ℕ) → n ≤ i → AllBelow i (first n)
first-AllBelow i zero h = tt
first-AllBelow i (suc n) h = (omega arith, first-AllBelow i n (omega arith))

length-drop :
    {A : Type 0} (n : ℕ) (as' : List A) → n ≤ length as' → n + length (drop n as') ≡ length as'
unfolding drop
length-drop zero as' h = omega arith
length-drop (suc n) [] h = absurd (omega arith)
length-drop (suc n) (a ∷ as') h = omega (arith, length-drop n as' (omega arith))

module _ (e : Engine) where
  open e use {Db, history}

  apply_change_keeps :
      (change : Change) (d : Db) (l : List ℤ)
      → history d ≡ some l
      → history (apply_change e change d).1 ≡ some l
  unfolding apply_change auto_migrate_tables
  apply_change_keeps (create_tables tables) d l h = elim (Bool-cases (e.dialect == "mysql")) [
    | inl mysql ↦ rw mysql (e.auto_migrate_keeps "ENGINE=InnoDB CHARSET=utf8" tables d l h)
    | inr other ↦ rw other (e.auto_migrate_keeps "" tables d l h)
  ]
  apply_change_keeps nothing d l h = h
  apply_change_keeps widen_request_details d l h = elim (Bool-cases (e.dialect == "sqlite3")) [
    | inl sqlite ↦ rw sqlite h
    | inr other ↦ rw other (e.modify_column_keeps "request_details" "text" d ∙ h)
  ]

  -- The outcome of a round: recorded, or as before.
  run_one_first :
      (i : ℕ) (change : Change) (d : Db)
      → history d ≡ some (first i)
      → (((run_one e i change d).0 ≡ ok tt)
          × (history (run_one e i change d).1 ≡ some (first (suc i))))
        ⊎ (((x : Error) × ((run_one e i change d).0 ≡ err x))
            × (history (run_one e i change d).1 ≡ some (first i)))
  unfolding run_one
  run_one_first i change d h =
      let d0 = e.begin d in
      let d1 = (apply_change e change d0).1 in
      let kept = apply_change_keeps change d0 (first i) (e.begin_keeps d ∙ h) in
      elim (Result-cases (apply_change e change d0).0) [
        | inr (x, failed) ↦
            inr ((x, ground (arith, failed)), ground (arith, failed, e.rollback_keeps d1, kept))
        | inl (_, changed) ↦ elim (Result-cases (e.save_migration i d1).0) [
          | inr (x, failed) ↦ elim (e.save_failed i d1) [
            | inl done ↦ absurd (ground (arith, done, failed))
            | inr same ↦ inr (
              (x, ground (arith, changed, failed)),
              ground
                  (arith, changed, failed, e.rollback_keeps (e.save_migration i d1).1, same, kept),
            )
          ]
          | inl (_, saved) ↦ inl (
            ground (arith, changed, saved),
            ground (
              arith,
              changed,
              saved,
              e.commit_keeps (e.save_migration i d1).1,
              e.save_ok i d1 (first i) kept (first-AllBelow i i (omega arith)) saved,
            ),
          )
        ]
      ]

  -- The first `k` migrations are recorded, `k` within the bounds, and the upper one without an error.
  abbrev pub IsReached : ℕ → ℕ → Result (Unit {0}) × Db → Type 0
  IsReached low high (r, d) =
      (k : ℕ) × (low ≤ k)
      × (k ≤ high)
      × (history d ≡ some (first k))
      × ((k ≡ high) ⊎ ((x : Error) × (r ≡ err x)))

  stopped :
      (low high : ℕ) (out : Result (Unit {0}) × Db) (x : Error)
      → low ≤ high
      → out.0 ≡ err x
      → history out.1 ≡ some (first low)
      → IsReached low high out
  stopped low high out x h failed recorded = (low, omega arith, h, recorded, inr (x, failed))

  pub run_from_first :
      (i : ℕ) (changes : List Change) (d : Db)
      → history d ≡ some (first i)
      → IsReached i (i + length changes) (run_from e i changes d)
  unfolding run_from
  run_from_first i [] d h = (i, omega arith, omega arith, h, inl (omega arith))
  run_from_first i (change ∷ changes) d h = elim (run_one_first i change d h) [
    | inr ((x, failed), same) ↦
        stopped i (i + suc (length changes)) (run_from e i (change ∷ changes) d) x (omega arith)
          (ground (arith, failed)) (ground (arith, failed, same))
    | inl (done, next) ↦
        (let d' = (run_one e i change d).1 in
          let (k, low, high, reached, outcome) = run_from_first (suc i) changes d' next in
          let left : run_from e i (change ∷ changes) d ≡ run_from e (suc i) changes d' =
            ground (arith, done) in
          rw left (
            k,
            omega arith,
            omega arith,
            reached,
            elim outcome [ inl all ↦ inl (omega arith) | inr failed ↦ inr failed ],
          ))
  ]

  -- The migration that a run starts behind, where the first `n` are recorded and can be read.
  pub last_migration_first :
      (d : Db) (n : ℕ) (l : ℤ)
      → history d ≡ some (first n)
      → last_migration e d ≡ ok l
      → (m : ℕ) × (n ≡ suc m) × (l ≡ pos m)
  unfolding last_migration
  last_migration_first d n l h read = elim (Result-cases (e.find_migrations d)) [
    | inr (x, failed) ↦ absurd (ground (arith, h, read, failed, e.has_table_history d))
    | inl (stored, found) ↦ headed n l stored h read found
  ]
    where
      headed :
          (n : ℕ) (l : ℤ) (stored : List ℤ)
          → history d ≡ some (first n)
          → last_migration e d ≡ ok l
          → e.find_migrations d ≡ ok stored
          → (m : ℕ) × (n ≡ suc m) × (l ≡ pos m)
      headed zero l stored h read found =
          absurd (ground (arith, h, read, found, e.has_table_history d, e.find_ok d stored found))
      headed (suc m) l stored h read found =
          (m, refl, ground (arith, h, read, found, e.has_table_history d, e.find_ok d stored found))

  run_behind :
      (d : Db) (m : ℕ)
      → suc m ≤ 7
      → history d ≡ some (first (suc m))
      → IsReached (suc m) 7 (run_after e (pos m) d)
  unfolding run_after migrations
  run_behind d m h recorded =
      let count : suc m + length (drop (suc m) migrations) ≡ 7 = length-drop (suc m) migrations h in
      rw count at (run_from_first (suc m) (drop (suc m) migrations) d recorded)

  -- On a database that has the first `n` of the seven migrations, a run records no migration twice and
  -- leaves none out: whatever fails, the first `k` are recorded afterwards, `k` from `n` to seven, and
  -- all seven are if the run returns no error.
  pub run_migrations_bounds :
      (d : Db) (n : ℕ) → n ≤ 7 → history d ≡ some (first n) → IsReached n 7 (run_migrations e d)
  unfolding run_migrations
  run_migrations_bounds d n h recorded = elim (Result-cases (last_migration e d)) [
    | inr (x, failed) ↦
        stopped n 7 (run_migrations e d) x h (ground (arith, failed))
          (ground (arith, failed, recorded))
    | inl (l, read) ↦
        (let (m, own, last) = last_migration_first d n l recorded read in
          let read' : last_migration e d ≡ ok (pos m) = read ∙ ap (λ i. ok i) last in
          elim (Result-cases (validate_last_migration (pos m))) [
            | inr (x, refused) ↦
                stopped n 7 (run_migrations e d) x h (ground (arith, read', refused))
                  (ground (arith, read', refused, recorded))
            | inl (_, valid) ↦
                (let left : run_migrations e d ≡ run_after e (pos m) d =
                    ground (arith, read', valid) in
                  rw (left, own) (run_behind d m (omega arith) (rw own at recorded)))
          ])
  ]
