-- ===== src/Tf/Workspace.antt =====
-- pkg/providers/tf/wrapper/workspace.go: the workspaces that are stored with a deployment. The directories
-- and the Terraform commands are not modelled.
use cloud_service_broker.Prelude.{String, List, [], ◌∷◌, Option, none, some}
use cloud_service_broker.Prelude.StringMap.{StringMap, lookup, insert}
use cloud_service_broker.Outcome.{Result, ok, ◌>>=◌}
use cloud_service_broker.Json.{Value, null, Object}
use cloud_service_broker.Tf.Module.{
  Block, Tfstate, ModuleDefinition, new_tfstate, get_outputs, inputs,
}

pub record ModuleInstance : Type 0 where
  pub module_name : String
  pub instance_name : String
  pub configuration : Object

pub record ParameterMapping : Type 0 where
  pub tf_variable : String
  pub parameter_name : String

pub record TfTransformer : Type 0 where
  pub parameter_mappings : List ParameterMapping
  pub parameters_to_remove : List String
  pub parameters_to_add : List ParameterMapping

-- The fields that are serialized.
pub record TerraformWorkspace : Type 0 where
  pub modules : List ModuleDefinition
  pub instances : List ModuleInstance
  pub state : String
  pub transformer : TfTransformer

-- What encoding/json, hcl and fmt do for a workspace.
pub record Codecs : Type 0 where
  pub marshal_workspace : TerraformWorkspace → Result String
  pub unmarshal_workspace : String → Result TerraformWorkspace
  pub unmarshal_state : String → Result Tfstate
  pub parse_hcl : String → Result (List Block)
  pub print_value : Value → String

-- An index out of range panics, which ends the process; here it is an error.
unfoldable pub first_element {ℓ} : {A : Type ℓ} → List A → Option A
first_element [] = none
first_element (a ∷ _) = some a

-- `m[k]` of a map of values, which is nil where there is none.
abbrev pub or_null : Option Value → Value
or_null none = null
or_null (some v) = v

unfoldable pub limited_config : List String → Object → Object
limited_config [] template_vars = []
limited_config (name ∷ names) template_vars =
    insert name (or_null (lookup name template_vars)) (limited_config names template_vars)

module _ (c : Codecs) where
  unfoldable pub new_workspace :
      Object → String → StringMap String → TfTransformer → Result TerraformWorkspace
  new_workspace template_vars terraform_template terraform_templates transformer =
      let tf_module : ModuleDefinition = record {
        name = "brokertemplate";
        definition = terraform_template;
        definitions = terraform_templates;
      } in
      do
        input_list ← inputs c.parse_hcl tf_module
        ok (record {
          modules = tf_module ∷ [];
          instances =
              (record {
                module_name = tf_module.name;
                instance_name = "instance";
                configuration = limited_config input_list template_vars;
              })
              ∷ [];
          state = "";
          transformer = transformer;
        })

  unfoldable pub deserialize_workspace : String → Result TerraformWorkspace
  deserialize_workspace definition = c.unmarshal_workspace definition

  unfoldable pub serialize : TerraformWorkspace → Result String
  serialize workspace = c.marshal_workspace workspace

  -- The name of the instance plays no part.
  unfoldable pub workspace_outputs : TerraformWorkspace → String → Result Object
  workspace_outputs workspace instance' = do
    state ← new_tfstate c.unmarshal_state workspace.state
    ok (get_outputs state)
