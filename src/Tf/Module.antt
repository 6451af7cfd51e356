-- ===== src/Tf/Module.antt =====
-- pkg/providers/tf/wrapper/module.go and tfstate.go: Terraform modules and the state of an execution.
use cloud_service_broker.Prelude.{
  String, Bool, false, List, [], ◌∷◌, ◌++◌, ◌==◌, if◌then◌else◌, nat_eq,
}
pub use cloud_service_broker.Prelude.Int.{ℤ, pos, negsuc}
use cloud_service_broker.Prelude.StringMap.{StringMap, insert}
use cloud_service_broker.Prelude.Sorting.{sort_by, itself}
use cloud_service_broker.Outcome.{Result, ok, err, ◌>>=◌, wrapped, or_raise, plain}
use cloud_service_broker.Json.{Value, Object}

-- A block that `hcl` finds: its type and labels.
pub record Block : Type 0 where
  pub type_name : String
  pub labels : List String

pub record TfOutput : Type 0 where
  pub type_name : String
  pub value : Value

pub record Tfstate : Type 0 where
  pub version : ℤ
  pub outputs : StringMap TfOutput

pub record ModuleDefinition : Type 0 where
  pub name : String
  pub definition : String
  pub definitions : StringMap String

abbrev is_supported : ℤ → Bool
is_supported (pos n) = nat_eq n 4
is_supported (negsuc n) = false

-- `unmarshal_state` is `json.Unmarshal` into a `Tfstate`.
unfoldable pub new_tfstate : (String → Result Tfstate) → String → Result Tfstate
new_tfstate unmarshal_state state_file = do
  state ← unmarshal_state state_file
  (if is_supported state.version then ok state else err (plain "unsupported tfstate version"))

output_values : StringMap TfOutput → Object
output_values [] = []
output_values ((output_name, tf_output) ∷ outputs) =
    insert output_name tf_output.value (output_values outputs)

unfoldable pub get_outputs : Tfstate → Object
unfolding output_values
get_outputs module' = output_values module'.outputs

labels_of_type : String → List Block → List String
labels_of_type t [] = []
labels_of_type t (block ∷ blocks) =
    let rest = labels_of_type t blocks in
    if block.type_name == t then block.labels ++ rest else rest

-- `parse` is the function `decode` of the package, which only calls `hcl`.
module _ (parse : String → Result (List Block)) where
  decode_all : StringMap String → List Block → Result (List Block)
  decode_all [] blocks = ok blocks
  decode_all ((name, definition) ∷ definitions) blocks = do
    new_blocks ← or_raise (parse definition) (λ e. wrapped "" e " decoding definitions")
    decode_all definitions (blocks ++ new_blocks)

  unfoldable pub decode : ModuleDefinition → Result (List Block)
  unfolding decode_all
  decode module' = do blocks ← parse module'.definition; decode_all module'.definitions blocks

  unfoldable pub inputs : ModuleDefinition → Result (List String)
  unfolding labels_of_type
  inputs module' = do
    blocks ← decode module'
    ok (sort_by itself (labels_of_type "variable" blocks))

  unfoldable pub outputs : ModuleDefinition → Result (List String)
  unfolding labels_of_type
  outputs module' = do blocks ← decode module'; ok (sort_by itself (labels_of_type "output" blocks))
