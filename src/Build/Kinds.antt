-- ===== src/Build/Kinds.antt =====
-- templates.go: container sets, and the resource, suspend and HTTP templates.
use theo_forge.Prelude.{
  Bool, Text, String, Option, none, some, List, [], ◌∷◌, map, is_empty, if◌then◌else◌, Result, ok,
  err, errorf, wrap, fail_if, wrapping, traverse, invalid_timeout, ◌>>=◌, ◌>>◌,
}
use theo_forge.Int.{ℤ}
use theo_forge.Model.Basic.{StringMap, ResourceRequirements, ParameterModel}
use theo_forge.Model.Containers.{ContainerModel}
use theo_forge.Model.Templates.{TemplateModel, template, no_dag, no_groups, fields_named}
use theo_forge.Build.Parameters.{Parameter, as_input, as_output}
use theo_forge.Build.Artifacts.{ArtifactBuilder}
use theo_forge.Build.Interfaces.{EnvBuilder, VolumeBuilder}
use theo_forge.Build.Shared.{
  RetryStrategy, build_env_vars, build_volume_mount_models, build_inputs_from_params,
  build_outputs_from_params, build_metadata_model, build_retry_strategy_model,
}

pub record ContainerNode : Type 0 where
  pub name : Text
  pub image : Text
  pub command : List Text
  pub args : List Text
  pub env : List EnvBuilder
  pub resources : Option ResourceRequirements
  pub dependencies : List Text

-- `Dependencies` is not among the fields that the code sets.
unfoldable pub build_model : ContainerNode → ContainerModel
build_model c = record {
  name = c.name;
  image = c.image;
  command = c.command;
  args = c.args;
  working_dir = [];
  env = build_env_vars c.env;
  env_from = [];
  resources = c.resources;
  volume_mounts = [];
  image_pull_policy = [];
  ports = [];
  security_context = none;
  stdin = none;
  mirror = none;
  lifecycle = none;
  readiness_probe = none;
  liveness_probe = none;
  dependencies = [];
}

pub record ContainerSet : Type 0 where
  pub name : Text
  pub containers : List ContainerNode
  pub inputs : List Parameter
  pub outputs : List Parameter
  pub volume_mounts : List VolumeBuilder
  pub retry_strategy : Option RetryStrategy

unfoldable pub build_container_set : ContainerSet → Result TemplateModel
build_container_set cs = do
  fail_if (is_empty cs.name) (errorf "container set template name cannot be empty" [])
  fail_if (is_empty cs.containers) (errorf "container set must have at least one container" [])
  inputs ← wrapping "container set %q: %w" (cs.name ∷ []) (build_inputs_from_params cs.inputs [])
  outputs ← wrapping "container set %q: %w" (cs.name ∷ []) (build_outputs_from_params cs.outputs [])
  ok (
      template
        (record (fields_named cs.name) {
          inputs = inputs;
          outputs = outputs;
          container_set = some (record {
            containers = map build_model cs.containers;
            volume_mounts = build_volume_mount_models cs.volume_mounts;
          });
          retry_strategy = build_retry_strategy_model cs.retry_strategy;
        })
        no_dag no_groups)

pub record ResourceTemplate : Type 0 where
  pub name : Text
  pub action : Text
  pub manifest : Text
  pub success_condition : Text
  pub failure_condition : Text
  pub inputs : List Parameter
  pub outputs : List Parameter
  pub input_artifacts : List ArtifactBuilder
  pub output_artifacts : List ArtifactBuilder
  pub flags : List Text
  pub set_owner_reference : Option Bool
  pub merge_strategy : Text
  pub labels : StringMap
  pub annotations : StringMap

unfoldable pub build_resource_template : ResourceTemplate → Result TemplateModel
build_resource_template r = do
  fail_if (is_empty r.name) (errorf "resource template name cannot be empty" [])
  fail_if (is_empty r.action) (errorf "resource template action cannot be empty" [])
  fail_if (is_empty r.manifest) (errorf "resource template manifest cannot be empty" [])
  inputs ←
      wrapping "resource template %q: %w" (r.name ∷ [])
        (build_inputs_from_params r.inputs r.input_artifacts)
  outputs ←
      wrapping "resource template %q: %w" (r.name ∷ [])
        (build_outputs_from_params r.outputs r.output_artifacts)
  ok (
      template
        (record (fields_named r.name) {
          resource = some (record {
            action = r.action;
            manifest = r.manifest;
            success_condition = r.success_condition;
            failure_condition = r.failure_condition;
            flags = r.flags;
            set_owner_reference = r.set_owner_reference;
            merge_strategy = r.merge_strategy;
            manifest_from = none;
          });
          inputs = inputs;
          outputs = outputs;
          metadata = build_metadata_model r.labels r.annotations;
        })
        no_dag no_groups)

pub record Suspend : Type 0 where
  pub name : Text
  pub duration : Text
  pub inputs : List Parameter
  pub outputs : List Parameter

unfoldable pub build_suspend : Suspend → Result TemplateModel
build_suspend s = do
  fail_if (is_empty s.name) (errorf "suspend template name cannot be empty" [])
  inputs ← wrapping "suspend %q: %w" (s.name ∷ []) (build_inputs_from_params s.inputs [])
  outputs ← wrapping "suspend %q: %w" (s.name ∷ []) (build_outputs_from_params s.outputs [])
  ok (
      template
        (record (fields_named s.name) {
          suspend = some (record { duration = s.duration });
          inputs = inputs;
          outputs = outputs;
        })
        no_dag no_groups)

pub record HttpTemplate : Type 0 where
  pub name : Text
  pub url : Text
  pub method : Text
  pub headers : StringMap
  pub body : Text
  pub success_condition : Text
  pub inputs : List Parameter
  pub outputs : List Parameter
  pub timeout : Text

-- `if len(params) > 0 { … }`, one list of models for the parameters of either direction.
unfoldable pub parameters_if_any :
    (Parameter → Result ParameterModel)
    → String
    → Text
    → List Parameter
    → Result (Option (List ParameterModel))
parameters_if_any convert format name params = if is_empty params then ok none else (do
  ms ← traverse (λ p. wrapping format (name ∷ p.name ∷ []) (convert p)) params
  ok (some ms))

-- `time.ParseDuration` and the whole seconds of what it returns are a parameter; its error is joined to
-- ErrInvalidTimeout.
module _ (duration_seconds : Text → Option ℤ) where
  unfoldable pub parse_timeout_seconds : Text → Result ℤ
  parse_timeout_seconds s = elim (duration_seconds s) [
    | some n ↦ ok n
    | none ↦ err (wrap "%w" (s ∷ []) invalid_timeout)
  ]

  unfoldable pub timeout_seconds : Text → Text → Result (Option ℤ)
  timeout_seconds name timeout = if is_empty timeout then ok none else (do
    secs ← wrapping "HTTP template %q timeout: %w" (name ∷ []) (parse_timeout_seconds timeout)
    ok (some secs))

  unfoldable pub build_http_template : HttpTemplate → Result TemplateModel
  build_http_template h = do
    fail_if (is_empty h.name) (errorf "HTTP template name cannot be empty" [])
    fail_if (is_empty h.url) (errorf "HTTP template URL cannot be empty" [])
    inputs ← parameters_if_any as_input "HTTP template %q input parameter %q: %w" h.name h.inputs
    outputs ←
        parameters_if_any as_output "HTTP template %q output parameter %q: %w" h.name h.outputs
    secs ← timeout_seconds h.name h.timeout
    ok (
        template
          (record (fields_named h.name) {
            http = some (record {
              url = h.url;
              method = h.method;
              headers = map (λ e. record { name = e.0; value = e.1; value_from = none }) h.headers;
              body = h.body;
              success_condition = h.success_condition;
              timeout_seconds = secs;
            });
            inputs = elim inputs [
              | none ↦ none
              | some ps ↦ some (record { parameters = ps; artifacts = [] })
            ];
            outputs = elim outputs [
              | none ↦ none
              | some ps ↦ some (record { parameters = ps; artifacts = []; exit_code = [] })
            ];
            timeout = h.timeout;
          })
          no_dag no_groups)
