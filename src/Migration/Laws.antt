-- ===== src/Migration/Laws.antt =====
-- What `DiffStringMap` reports, and what the migration of the environment changes.
use cloud_service_broker.Prelude.{
  ◌≡◌, refl, String, List, [], ◌∷◌, ◌==◌, eq_iff, Option, none, some, if◌then◌else◌, arith,
  contains,
}
use cloud_service_broker.Prelude.StringMap.{
  StringMap, lookup, delete, lookup-insert, lookup-delete, contains-keys,
}
use cloud_service_broker.StringSet.{new_string_set_from_string_map_keys, add, to_slice}
use cloud_service_broker.StringSet.Laws.{
  contains-add, contains-new_string_set_from_string_map_keys, holds-to_slice,
}
use cloud_service_broker.Migration.{
  Diff, value_at, diffs, diff_string_map, delete_migration, whitelist_keys, delete_whitelist_keys,
  migrations, run_migrations, full_migration, migrate_env,
}

-- The difference of two maps at one key, with a missing entry read as blank.
abbrev pub difference : String → StringMap String → StringMap String → Option Diff
difference k old new =
    if value_at k old == value_at k new
    then none
    else some (record { old = value_at k old; new = value_at k new })

lookup-diffs :
    (k : String) (old new : StringMap String) (ks : List String)
    → lookup k (diffs old new ks) ≡ (if contains k ks then difference k old new else none)
unfolding diffs
lookup-diffs k old new [] = refl
lookup-diffs k old new (j ∷ ks) = ground (
  arith,
  eq_iff j k,
  lookup-diffs k old new ks,
  lookup-insert k j (record { old = value_at j old; new = value_at j new }) (diffs old new ks),
)

-- The report has an entry for exactly the keys at which the maps differ, with both values; a missing
-- entry counts as a blank one.
pub lookup-diff_string_map :
    (k : String) (old new : StringMap String)
    → lookup k (diff_string_map old new) ≡ difference k old new
unfolding diff_string_map
lookup-diff_string_map k old new =
    let o = new_string_set_from_string_map_keys old in
    let n = new_string_set_from_string_map_keys new in
    ground (
      arith,
      lookup-diffs k old new (to_slice (add (to_slice n) o)),
      holds-to_slice k (add (to_slice n) o),
      holds-to_slice k n,
      contains-add k (to_slice n) o,
      contains-new_string_set_from_string_map_keys k old,
      contains-new_string_set_from_string_map_keys k new,
      contains-keys k old,
      contains-keys k new,
      eq_iff (value_at k old) (value_at k new),
    )

lookup-delete_migration :
    (k : String) (ks : List String) (env : StringMap String)
    → lookup k (delete_migration ks env) ≡ (if contains k ks then none else lookup k env)
unfolding delete_migration
lookup-delete_migration k [] env = refl
lookup-delete_migration k (j ∷ ks) env =
    ground (arith, lookup-delete_migration k ks (delete j env), lookup-delete k j env)

-- The migration removes the whitelist keys of version 4 and leaves every other entry as it was.
pub lookup-full_migration :
    (k : String) (env : StringMap String)
    → lookup k (full_migration env) ≡ (if contains k whitelist_keys then none else lookup k env)
unfolding full_migration run_migrations migrations delete_whitelist_keys
lookup-full_migration k env = lookup-delete_migration k whitelist_keys env

-- The migration reports every entry that it removes, unless it was blank, and nothing else.
pub lookup-migrate_env :
    (k : String) (env : StringMap String)
    → lookup k (migrate_env env) ≡ (
        if contains k whitelist_keys
        then (if value_at k env == ""
            then none
            else some (record { old = value_at k env; new = "" }))
        else none)
unfolding migrate_env
lookup-migrate_env k env = ground (
  arith,
  lookup-full_migration k env,
  lookup-diff_string_map k env (full_migration env),
  eq_iff (value_at k env) (value_at k env),
)
