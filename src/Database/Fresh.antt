-- ===== src/Database/Fresh.antt =====
-- The first run on an empty database, and the runs behind one that has stopped early.
use mathlib.Core.List.{Memᴰ}
use mathlib.Core.List.Memᴰ.{head, tail}
use cloud_service_broker.Prelude.{
  ◌≡◌, refl, ◌∙◌, ap, ◌⊎◌, inl, inr, String, ℕ, zero, suc, ◌≤◌, none, some, List, [], ◌∷◌, arith,
  length, Bool-cases, ◌==◌,
}
use cloud_service_broker.Prelude.Int.{pos}
use cloud_service_broker.Outcome.{Error, ok, err, plain, Result-cases}
use cloud_service_broker.Database.Connection.{Engine}
use cloud_service_broker.Database.{
  Change, create_tables, migrations, apply_change, auto_migrate_tables, run_one, run_from,
  last_migration, validate_last_migration, run_migrations, run_after,
}
use cloud_service_broker.Database.Laws.{first, IsReached, run_from_first, last_migration_first}

abbrev too_old : Error
too_old =
    plain
      "Migration from broker versions <= 2.0 is no longer supported, upgrade using a v3.x broker then try again."

refused_zero : validate_last_migration (pos 0) ≡ err too_old
unfolding validate_last_migration
refused_zero = refl

module _ (e : Engine) where
  open e use {Db, history}

  create_tables_fresh :
      (tables : List String) (d : Db)
      → history d ≡ none
      → Memᴰ "migrations" tables
      → ((history (apply_change e (create_tables tables) d).1 ≡ none)
          ⊎ (history (apply_change e (create_tables tables) d).1 ≡ some []))
        × ((apply_change e (create_tables tables) d).0 ≡ ok tt
            → history (apply_change e (create_tables tables) d).1 ≡ some [])
  unfolding apply_change auto_migrate_tables
  create_tables_fresh tables d h i = elim (Bool-cases (e.dialect == "mysql")) [
    | inl mysql ↦ rw mysql (
      e.auto_migrate_failed "ENGINE=InnoDB CHARSET=utf8" tables d h,
      λ done. e.auto_migrate_creates "ENGINE=InnoDB CHARSET=utf8" tables d h i done,
    )
    | inr other ↦
        rw other
          (e.auto_migrate_failed "" tables d h, λ done. e.auto_migrate_creates "" tables d h i done)
  ]

  -- The round that creates the table of migrations.
  run_one_fresh :
      (tables : List String) (d : Db)
      → history d ≡ none
      → Memᴰ "migrations" tables
      → (((run_one e 0 (create_tables tables) d).0 ≡ ok tt)
          × (history (run_one e 0 (create_tables tables) d).1 ≡ some (first 1)))
        ⊎ (((x : Error) × ((run_one e 0 (create_tables tables) d).0 ≡ err x))
            × ((history (run_one e 0 (create_tables tables) d).1 ≡ none)
                ⊎ (history (run_one e 0 (create_tables tables) d).1 ≡ some [])))
  unfolding run_one
  run_one_fresh tables d h i =
      let d0 = e.begin d in
      let d1 = (apply_change e (create_tables tables) d0).1 in
      let (left, made) = create_tables_fresh tables d0 (e.begin_keeps d ∙ h) i in
      elim (Result-cases (apply_change e (create_tables tables) d0).0) [
        | inr (x, failed) ↦ inr (
          (x, ground (arith, failed)),
          elim left [
            | inl empty ↦ inl (ground (arith, failed, e.rollback_keeps d1, empty))
            | inr bare ↦ inr (ground (arith, failed, e.rollback_keeps d1, bare))
          ],
        )
        | inl (_, changed) ↦ elim (Result-cases (e.save_migration 0 d1).0) [
          | inr (x, failed) ↦ elim (e.save_failed 0 d1) [
            | inl done ↦ absurd (ground (arith, done, failed))
            | inr same ↦ inr (
              (x, ground (arith, changed, failed)),
              inr (
                  ground (
                    arith,
                    changed,
                    failed,
                    e.rollback_keeps (e.save_migration 0 d1).1,
                    same,
                    made changed,
                  )),
            )
          ]
          | inl (_, saved) ↦ inl (
            ground (arith, changed, saved),
            ground (
              arith,
              changed,
              saved,
              e.commit_keeps (e.save_migration 0 d1).1,
              e.save_ok 0 d1 [] (made changed) tt saved,
            ),
          )
        ]
      ]

  run_from_fresh :
      (tables : List String) (changes : List Change) (d : Db)
      → history d ≡ none
      → Memᴰ "migrations" tables
      → (((x : Error) × ((run_from e 0 (create_tables tables ∷ changes) d).0 ≡ err x))
          × (history (run_from e 0 (create_tables tables ∷ changes) d).1 ≡ none))
        ⊎ IsReached e 0 (suc (length changes)) (run_from e 0 (create_tables tables ∷ changes) d)
  unfolding run_from
  run_from_fresh tables changes d h i = elim (run_one_fresh tables d h i) [
    | inr ((x, failed), inl empty) ↦
        inl ((x, ground (arith, failed)), ground (arith, failed, empty))
    | inr ((x, failed), inr bare) ↦ inr (
      zero,
      omega arith,
      omega arith,
      ground (arith, failed, bare),
      inr (x, ground (arith, failed)),
    )
    | inl (done, next) ↦
        (let d' = (run_one e 0 (create_tables tables) d).1 in
          let (k, low, high, reached, outcome) = run_from_first e 1 changes d' next in
          let left : run_from e 0 (create_tables tables ∷ changes) d ≡ run_from e 1 changes d' =
            ground (arith, done) in
          rw left (
            inr (
              k,
              omega arith,
              omega arith,
              reached,
              elim outcome [ inl all ↦ inl (omega arith) | inr failed ↦ inr failed ],
            )))
  ]

  -- The first run on a database without the table of migrations ends with an error and still no such
  -- table, or it has recorded the first `k` of the seven migrations, and all seven if it returns no
  -- error.
  pub run_migrations_fresh :
      (d : Db)
      → history d ≡ none
      → (((x : Error) × ((run_migrations e d).0 ≡ err x)) × (history (run_migrations e d).1 ≡ none))
        ⊎ IsReached e 0 7 (run_migrations e d)
  unfolding run_migrations run_after migrations last_migration validate_last_migration
  run_migrations_fresh d h =
      let left : run_migrations e d ≡ run_from e 0 migrations d =
        ground (arith, h, e.has_table_history d) in
      rw left (run_from_fresh _ _ d h (tail (tail (tail (tail (head refl))))))

  -- A database that has recorded only the first migration, or the empty table of migrations, as a first
  -- run that fails there leaves it, is refused: a run on it fails and changes nothing.
  pub run_migrations_refuses :
      (d : Db) (n : ℕ)
      → n ≤ 1
      → history d ≡ some (first n)
      → (x : Error) × (run_migrations e d ≡ (err x, d))
  unfolding run_migrations
  run_migrations_refuses d n h recorded = elim (Result-cases (last_migration e d)) [
    | inr (x, failed) ↦ (x, ground (arith, failed))
    | inl (l, read) ↦
        (let (m, own, last) = last_migration_first e d n l recorded read in
          let zeroth : m ≡ zero = omega arith in
          let read' : last_migration e d ≡ ok (pos 0) =
            read ∙ ap (λ i. ok i) (last ∙ ap (λ i. pos i) zeroth) in
          (too_old, ground (arith, read', refused_zero)))
  ]
