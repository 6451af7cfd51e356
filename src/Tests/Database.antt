-- ===== src/Tests/Database.antt =====
-- Migrations of a database of which only the table of migrations is kept.
use cloud_service_broker.Prelude.{
  ◌≡◌, ◌≤◌, ◌⊎◌, refl, inl, inr, ℕ, Option, none, some, List, [], ◌∷◌, arith, is_some,
}
use cloud_service_broker.Prelude.Int.{ℤ, pos}
use cloud_service_broker.Outcome.{Error, Result, ok, err, plain}
use cloud_service_broker.Database.Connection.{Engine}
use cloud_service_broker.Database.{run_migrations}
use cloud_service_broker.Database.Laws.{first, IsReached, run_migrations_bounds}
use cloud_service_broker.Database.Fresh.{run_migrations_fresh, run_migrations_refuses}

abbrev table : Option (List ℤ) → List ℤ
table none = []
table (some l) = l

abbrev written : ℕ → Option (List ℤ) → Result (Unit {0}) × Option (List ℤ)
written i none = (err (plain "no table"), none)
written i (some l) = (ok tt, some (pos i ∷ l))

abbrev read : Option (List ℤ) → Result (List ℤ)
read none = err (plain "no table")
read (some l) = ok l

pub found : (d : Option (List ℤ)) (l : List ℤ) → read d ≡ ok l → d ≡ some l
found none l h = absurd (ground (arith, h))
found (some l') l h = ground (arith, h)

pub saved :
    (i : ℕ) (d : Option (List ℤ)) (l : List ℤ) → d ≡ some l → (written i d).1 ≡ some (pos i ∷ l)
saved i d l h = rw h refl

pub save_kept : (i : ℕ) (d : Option (List ℤ)) → ((written i d).0 ≡ ok tt) ⊎ ((written i d).1 ≡ d)
save_kept i none = inr refl
save_kept i (some l) = inl refl

pub kept : (d : Option (List ℤ)) (l : List ℤ) → d ≡ some l → some (table d) ≡ some l
kept d l h = rw h refl

pub created : (d : Option (List ℤ)) → d ≡ none → some (table d) ≡ some []
created d h = rw h refl

abbrev engine : Engine
engine = record {
  Db = Option (List ℤ);
  dialect = "mysql";
  auto_migrate = λ _ _ d. (ok tt, some (table d));
  modify_column = λ _ _ d. (ok tt, d);
  has_table = λ _ d. is_some d;
  find_migrations = read;
  save_migration = written;
  begin = λ d. d;
  commit = λ d. d;
  rollback = λ d. d;
  history = λ d. d;
  has_table_history = λ d. refl;
  find_ok = found;
  save_ok = λ i d l h _ _. saved i d l h;
  save_failed = save_kept;
  begin_keeps = λ d. refl;
  commit_keeps = λ d. refl;
  rollback_keeps = λ d. refl;
  auto_migrate_keeps = λ _ _ d l h. kept d l h;
  auto_migrate_creates = λ _ _ d h _ _. created d h;
  auto_migrate_failed = λ _ _ d h. inr (created d h);
  modify_column_keeps = λ _ _ d. refl;
}

run_migrations_fresh_example :
    (((x : Error) × ((run_migrations engine none).0 ≡ err x))
      × (engine.history (run_migrations engine none).1 ≡ none))
    ⊎ IsReached engine 0 7 (run_migrations engine none)
run_migrations_fresh_example = run_migrations_fresh engine none refl

three_of_seven : 3 ≤ 7
three_of_seven = omega arith

run_migrations_bounds_example : IsReached engine 3 7 (run_migrations engine (some (first 3)))
run_migrations_bounds_example = run_migrations_bounds engine (some (first 3)) 3 three_of_seven refl

one_of_one : 1 ≤ 1
one_of_one = omega arith

run_migrations_refuses_example :
    (x : Error) × (run_migrations engine (some (first 1)) ≡ (err x, some (first 1)))
run_migrations_refuses_example = run_migrations_refuses engine (some (first 1)) 1 one_of_one refl
