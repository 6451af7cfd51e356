-- ===== src/Brokerpak.antt =====
-- pkg/brokerpak: what a pak declares, its configuration, and the services that it registers.
pub mod Laws
use cloud_service_broker.Prelude.{
  String, Bool, true, false, ◌==◌, ◌||◌, Option, none, some, List, [], ◌∷◌, if◌then◌else◌,
}
use Prim.Native.String.{◌++◌ as append}
use cloud_service_broker.Prelude.Int.{ℤ}
use cloud_service_broker.Prelude.StringMap.{StringMap, lookup, insert}
use cloud_service_broker.Outcome.{Result, ok, err, ◌>>=◌}
use cloud_service_broker.Json.{Object}
use cloud_service_broker.Externals.{Externals}
use cloud_service_broker.VarContext.{VarContext, to_map}
use cloud_service_broker.VarContext.Builder.{builder, merge_json_object, build}
use cloud_service_broker.StringSet
use cloud_service_broker.Validation.{
  Formats, each, err_if_blank, err_if_not_osb_name, err_if_not_json,
}
use cloud_service_broker.Validation.Fields.{FieldErrors}
use cloud_service_broker.Service.Definition.{ServiceDefinition}
use cloud_service_broker.Service.Provider.{ServiceProvider}
use cloud_service_broker.Tf.Definition.{TfServiceDefinitionV1}
use cloud_service_broker.Tf.Definition.Templates.{Files}
use cloud_service_broker.Tf.Definition.Validity.{Printing, is_one}
use cloud_service_broker.Tf.Definition.Service.{to_service}

pub record Platform : Type 0 where
  pub os : String
  pub arch : String

pub record TerraformResource : Type 0 where
  pub name : String
  pub version : String
  pub source : String
  pub url_template : String

pub record ManifestParameter : Type 0 where
  pub name : String
  pub description : String

pub record Manifest : Type 0 where
  pub pack_version : ℤ
  pub name : String
  pub version : String
  pub metadata : StringMap String
  pub platforms : List Platform
  pub terraform_resources : List TerraformResource
  pub service_definitions : List String
  pub parameters : List ManifestParameter
  pub required_env_vars : List String
  pub env_config_mapping : StringMap String

pub record BrokerpakSourceConfig : Type 0 where
  pub brokerpak_uri : String
  pub service_prefix : String
  pub excluded_services : String
  pub config : String
  pub notes : String

pub record ServerConfig : Type 0 where
  pub config : String
  pub brokerpaks : StringMap BrokerpakSourceConfig

unfoldable pub platform_string : Platform → String
platform_string p = append p.os (append "/" p.arch)

unfoldable pub platform_equals : Platform → Platform → Bool
unfolding platform_string
platform_equals p other = platform_string p == platform_string other

-- The current platform is an argument.
unfoldable pub applies_to_platform : Platform → List Platform → Bool
unfolding platform_equals
applies_to_platform current [] = false
applies_to_platform current (p ∷ platforms) =
    platform_equals p current || applies_to_platform current platforms

unfoldable pub config_from_path : String → BrokerpakSourceConfig
config_from_path path = record {
  brokerpak_uri = path;
  service_prefix = "";
  excluded_services = "";
  config = "{}";
  notes = "";
}

module _ (fe : FieldErrors) where
  open fe use {FieldError, also}

  unfoldable pub validate_platform : Platform → Option FieldError
  validate_platform p = also none (err_if_blank fe p.os "os" ∷ err_if_blank fe p.arch "arch" ∷ [])

  unfoldable pub validate_resource : TerraformResource → Option FieldError
  validate_resource tr = also none (
      err_if_blank fe tr.name "name"
      ∷ err_if_blank fe tr.version "version"
      ∷ err_if_blank fe tr.source "source"
      ∷ [])

  unfoldable pub validate_parameter : ManifestParameter → Option FieldError
  validate_parameter param =
      also none
        (err_if_blank fe param.name "name" ∷ err_if_blank fe param.description "description" ∷ [])

  -- `if len(list) == 0 { errs = errs.Also(ErrMissingField(field)) }`
  unfoldable pub required : {A : Type 0} → List A → String → Option FieldError → Option FieldError
  required [] field errs = also errs (fe.missing_field field ∷ [])
  required (a ∷ as') field errs = errs

  unfoldable pub validate_manifest : (ℤ → String) → Manifest → Option FieldError
  unfolding validate_platform validate_resource validate_parameter required
  validate_manifest print_int m =
      let versioned =
        if is_one m.pack_version
        then none
        else also none (fe.invalid_value (print_int m.pack_version) "packversion" ∷ []) in
      let named =
        also versioned (err_if_blank fe m.name "name" ∷ err_if_blank fe m.version "version" ∷ []) in
      let on_platforms =
        each fe validate_platform "platforms" 0 m.platforms
          (required m.platforms "platforms" named) in
      let on_resources =
        each fe validate_resource "terraform_binaries" 0 m.terraform_resources
          (required m.terraform_resources "terraform_binaries" on_platforms) in
      each fe validate_parameter "parameters" 0 m.parameters
        (required m.service_definitions "service_definitions" on_resources)

  module _ (formats : Formats) where
    unfoldable pub validate_source : BrokerpakSourceConfig → Option FieldError
    validate_source b =
        let located = also none (err_if_blank fe b.brokerpak_uri "uri" ∷ []) in
        let prefixed =
          if b.service_prefix == ""
          then located
          else also located (err_if_not_osb_name fe b.service_prefix "service_prefix" ∷ []) in
        also prefixed (err_if_not_json fe formats b.config "config" ∷ [])

    validate_paks : StringMap BrokerpakSourceConfig → Option FieldError → Option FieldError
    unfolding validate_source
    validate_paks [] errs = errs
    validate_paks ((k, v) ∷ paks) errs = validate_paks paks (
        also (also errs (fe.via_field_key "Brokerpaks" k (err_if_not_osb_name fe k "") ∷ []))
          (fe.via_field_key "Brokerpaks" k (validate_source v) ∷ []))

    unfoldable pub validate_server : ServerConfig → Option FieldError
    unfolding validate_paks
    validate_server cfg =
        validate_paks cfg.brokerpaks
          (also none (err_if_not_json fe formats cfg.config "Config" ∷ []))

module _ (x : Externals) where
  split_trimmed : List String → List String
  split_trimmed [] = []
  split_trimmed (pak ∷ paks) =
      let trimmed = x.trim_space pak in
      let rest = split_trimmed paks in if trimmed == "" then rest else trimmed ∷ rest

  -- `split` splits a text at its line ends.
  unfoldable pub excluded_services_slice :
      (String → List String) → BrokerpakSourceConfig → List String
  unfolding split_trimmed
  excluded_services_slice split b = split_trimmed (split b.excluded_services)

  resolve_from : List ManifestParameter → Object → StringMap String → StringMap String
  resolve_from [] context out = out
  resolve_from (p ∷ params) context out = elim (lookup p.name context) [
    | none ↦ resolve_from params context out
    | some val ↦ elim (x.to_string val) [
      | ok s ↦ resolve_from params context (insert p.name s out)
      | err e ↦ resolve_from params context (insert p.name "" out)
    ]
  ]

  -- `cast.ToString` drops the error, and makes a blank text of such a value.
  unfoldable pub resolve_parameters : List ManifestParameter → VarContext → StringMap String
  unfolding resolve_from
  resolve_parameters params vc = resolve_from params (to_map vc) []

  -- The configuration of a pak wins over that of the server.
  unfoldable pub pak_context : ServerConfig → BrokerpakSourceConfig → Result VarContext
  pak_context cfg pak =
      build (merge_json_object x pak.config (merge_json_object x cfg.config builder))

module _ {P : Type 0} (convert : TfServiceDefinitionV1 → Result (ServiceDefinition P)) where
  abbrev pub prefixed : String → TfServiceDefinitionV1 → TfServiceDefinitionV1
  prefixed prefix svc = record svc { name = append prefix svc.name }

  -- `convert` is `ToService` with the executor.
  unfoldable pub to_definitions_from :
      StringSet.StringSet
      → String
      → List TfServiceDefinitionV1
      → Result (List (ServiceDefinition P))
  to_definitions_from to_ignore prefix [] = ok []
  to_definitions_from to_ignore prefix (svc ∷ services) =
      let rest = to_definitions_from to_ignore prefix services in
      let converted : Result (List (ServiceDefinition P)) = (do
        bs ← convert (prefixed prefix svc)
        out ← rest
        ok (bs ∷ out)) in
      if StringSet.contains svc.id to_ignore then rest else converted

  unfoldable pub to_definitions :
      Externals
      → (String → List String)
      → BrokerpakSourceConfig
      → List TfServiceDefinitionV1
      → Result (List (ServiceDefinition P))
  unfolding to_definitions_from
  to_definitions x split config services =
      to_definitions_from (StringSet.new_string_set (excluded_services_slice x split config))
        config.service_prefix services
