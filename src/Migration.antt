-- ===== src/Migration.antt =====
-- pkg/config/migration: changes to the configuration in the environment, and the difference they make.
pub mod Laws
use cloud_service_broker.Prelude.{String, List, [], ◌∷◌, ◌==◌, Option, none, some, if◌then◌else◌}
use cloud_service_broker.Prelude.StringMap.{StringMap, lookup, insert, delete}
use cloud_service_broker.StringSet.{new_string_set_from_string_map_keys, add, to_slice}

pub record Diff : Type 0 where
  pub old : String
  pub new : String

-- `m[k]` of a Go map of strings, which is blank where there is none.
abbrev pub value_at : String → StringMap String → String
value_at k m = elim (lookup k m) [ none ↦ "" | some v ↦ v ]

-- The loop over the keys.
unfoldable pub diffs : StringMap String → StringMap String → List String → StringMap Diff
diffs old new [] = []
diffs old new (k ∷ ks) =
    let rest = diffs old new ks in
    if value_at k old == value_at k new
    then rest
    else insert k (record { old = value_at k old; new = value_at k new }) rest

unfoldable pub diff_string_map : StringMap String → StringMap String → StringMap Diff
diff_string_map old new =
    let all_keys =
      add (to_slice (new_string_set_from_string_map_keys new))
        (new_string_set_from_string_map_keys old) in
    diffs old new (to_slice all_keys)

-- What `GoFunc` does; `TileScript` is the same change in JavaScript and is not modelled.
abbrev pub Migration : Type 0
Migration = StringMap String → StringMap String

unfoldable pub delete_migration : List String → Migration
delete_migration [] env_map = env_map
delete_migration (v ∷ env) env_map = delete_migration env (delete v env_map)

unfoldable pub no_op : Migration
no_op env_map = env_map

abbrev pub whitelist_keys : List String
whitelist_keys =
    "GSB_SERVICE_GOOGLE_BIGQUERY_WHITELIST" ∷ "GSB_SERVICE_GOOGLE_BIGTABLE_WHITELIST"
    ∷ "GSB_SERVICE_GOOGLE_CLOUDSQL_MYSQL_WHITELIST"
    ∷ "GSB_SERVICE_GOOGLE_CLOUDSQL_POSTGRES_WHITELIST" ∷ "GSB_SERVICE_GOOGLE_ML_APIS_WHITELIST"
    ∷ "GSB_SERVICE_GOOGLE_PUBSUB_WHITELIST" ∷ "GSB_SERVICE_GOOGLE_SPANNER_WHITELIST"
    ∷ "GSB_SERVICE_GOOGLE_STORAGE_WHITELIST" ∷ []

unfoldable pub delete_whitelist_keys : Migration
delete_whitelist_keys = delete_migration whitelist_keys

unfoldable pub migrations : List Migration
migrations = delete_whitelist_keys ∷ []

unfoldable pub run_migrations : List Migration → Migration
run_migrations [] env = env
run_migrations (migration ∷ ms) env = run_migrations ms (migration env)

unfoldable pub full_migration : Migration
full_migration = run_migrations migrations

-- `MigrateEnv`, on the environment that `splitEnv` has read.
unfoldable pub migrate_env : StringMap String → StringMap Diff
migrate_env env = diff_string_map env (full_migration env)
