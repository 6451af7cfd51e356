-- ===== src/Tests/Shell.antt =====
-- A workspace on a disk that keeps the text of one file.
use cloud_service_broker.Prelude.{
  ◌≡◌, ◌≢◌, ◌⊎◌, ◌==◌, if◌then◌else◌, refl, String, false, none, some, List, [], ◌∷◌,
}
use cloud_service_broker.Outcome.{ok}
use cloud_service_broker.Outcome.Exec.{pure}
use cloud_service_broker.Tf.Shell.{System, Session}
use cloud_service_broker.Tf.Shell.Commands.{
  with_fs, torn_down, shown, run_quietly, import_each, apply, import_all, show,
}
use cloud_service_broker.Prelude.StringMap.{StringMap}
use cloud_service_broker.Tf.Workspace.{TerraformWorkspace, TfTransformer}
use cloud_service_broker.Tf.JobRunner.{ImportResource}
use cloud_service_broker.Tf.Transformer.{
  slot, shift, replace_parameters_in_tf, replace_parameters, on_value, on_resource, on_block, minus,
  is_removed, is_below, in_block, clean_lines, clean_line, capture_parameter_values, brace_count,
  at_slot, additions, add_parameters_in_tf, add_lines, Texts, clean_tf, unlines,
}
use cloud_service_broker.Tf.Transformer.Laws.{IsSublist, clean_tf-IsSublist}
use cloud_service_broker.Tf.ImportJob.{
  with_values, with_main, with_import, set_values, rewrite_main, imported, import_job, resource_map,
  transformed,
}
use cloud_service_broker.Tf.ImportJob.Laws.{HasMain, import_job-HasMain}
use cloud_service_broker.Prelude.Sorting.{sort_by, insert_sorted}
use cloud_service_broker.Tf.Module.{outputs, decode}
use cloud_service_broker.Tf.Shell.Layout.{
  write_variables, write_state, write_modules, write_module, write_instances, write_instance,
  write_definitions, write_definition, tf_state_path, teardown_fs, run_tf, lay_out, is_flat,
  initialized_fs_flat, initialize_fs_modules, initialize_fs, in_temp_dir, has_terraform, filled,
  definition_of,
}
use cloud_service_broker.Tests.Jobs.{workspace}

abbrev system : System
system = record {
  Disk = String;
  temp_dir = pure "/tmp/gsb";
  mkdir = λ _. pure tt;
  write_file = λ _ contents d. (ok tt, contents);
  read_file = λ _ d. ok d;
  remove_all = λ _ d. (ok tt, d);
  join_path = λ a b. b;
  execute = λ _ d. (ok (record { std_out = "printed"; std_err = "" }), "imported");
  environ = [];
  marshal_indent = λ _. ok "{}";
  marshal = λ _. ok "{}";
  parse_hcl = λ _. ok [];
}

abbrev idle : Session system
idle = record { workspace = workspace; locked = false; dir = ""; disk = "" }

abbrev texts : Texts
texts = record {
  lines = λ s. if s == "printed" then "resource" ∷ "id = 1" ∷ "}" ∷ [] else s ∷ [];
  opens = λ l. if l == "resource" then 1 else 0;
  closes = λ l. if l == "}" then 1 else 0;
  match_resource = λ l. if l == "resource" then some ("a", "b") else none;
  match_value = λ l. if l == "id = 1" then some "id" else none;
  match_block = λ _. none;
  split_last = λ _. none;
  finds_block = λ _ _. false;
  find_simple = λ _ _. none;
  strip_prefix = λ _ _. none;
  replace_block = λ _ _ tf. tf;
  replace_array = λ _ _ tf. tf;
  replace_simple = λ _ _ tf. tf;
}

abbrev transformer : TfTransformer
transformer = record {
  parameter_mappings = [];
  parameters_to_remove = "a.b.id" ∷ [];
  parameters_to_add = [];
}

cleans : clean_tf texts transformer "printed" ≡ ok "resource\n}\n"
unfolding clean_tf brace_count is_below
cleans = refl

clean_tf-IsSublist_example :
    (ls : List String) × ("resource\n}\n" ≡ unlines ls)
    × IsSublist ls (texts.lines "printed")
    × ((transformer.parameters_to_remove ≢ []) ⊎ (ls ≡ texts.lines "printed"))
clean_tf-IsSublist_example = clean_tf-IsSublist texts transformer "printed" "resource\n}\n" cleans

abbrev ready : Session system
ready = record idle { workspace = record workspace { transformer = transformer } }

abbrev given : List ImportResource
given = record { tf_resource = "resource"; iaas_resource = "id" } ∷ []

abbrev stored : TerraformWorkspace
stored = record workspace {
  modules =
      record { name = "m"; definition = ""; definitions = ("main", "resource\n}\n\n") ∷ [] } ∷ [];
  state = "imported";
  transformer = transformer;
}

ends :
    import_job system texts given ready
    ≡ some (ok tt, record idle { workspace = stored; disk = "imported" })
unfolding import_job import_all with_fs initialize_fs is_flat outputs decode import_each run_quietly
    teardown_fs show shown clean_tf brace_count add_parameters_in_tf is_below
    replace_parameters_in_tf insert_sorted sort_by imported resource_map rewrite_main set_values
    transformed with_import with_main with_values apply torn_down definition_of filled has_terraform
    in_temp_dir initialize_fs_modules initialized_fs_flat lay_out run_tf tf_state_path
    write_definition write_definitions write_instance write_instances write_module write_modules
    write_state write_variables add_lines additions at_slot capture_parameter_values clean_line
    clean_lines in_block is_removed minus on_block on_resource on_value replace_parameters shift
    slot
ends = refl

import_job-HasMain_example :
    (s1 s2 : Session system) × (printed tf : String) × (values : StringMap String) × (import_all
        system
        (resource_map given [])
        ready
      ≡ some (ok tt, s1))
    × (show system s1 ≡ some (ok printed, s2))
    × (transformed texts transformer printed ≡ ok (tf, values))
    × HasMain stored.modules tf
import_job-HasMain_example =
    import_job-HasMain system texts given ready
      (record idle { workspace = stored; disk = "imported" }) ends
