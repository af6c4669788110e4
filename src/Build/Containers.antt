-- ===== src/Build/Containers.antt =====
-- base_template.go, UserContainer of parameter.go, and Container and Script of container.go.
use theo_forge.Prelude.{
  Bool, Text, Option, none, some, List, [], ◌∷◌, map, is_empty, Result, ok, errorf, fail_if,
  wrapping, ◌>>=◌, ◌>>◌,
}
use theo_forge.Int.{ℤ}
use theo_forge.Model.Basic.{
  StringMap, ResourceRequirements, ContainerPort, Toleration, Metric, MemoizeModel,
  SynchronizationModel,
}
use theo_forge.Model.Artifacts.{ArtifactLocation}
use theo_forge.Model.Containers.{
  ContainerModel, SecurityContext, Lifecycle, Probe, EnvFromSource, Affinity,
}
use theo_forge.Model.Templates.{
  LifecycleHook, TemplateFields, TemplateModel, template, no_dag, no_groups, fields_named,
}
use theo_forge.Build.Parameters.{Parameter}
use theo_forge.Build.Artifacts.{ArtifactBuilder}
use theo_forge.Build.Interfaces.{Templatable, EnvBuilder, VolumeBuilder}
use theo_forge.Build.Shared.{
  RetryStrategy, build_inputs_from_params, build_outputs_from_params, build_env_vars,
  build_volume_mount_models, build_metadata_model, build_metrics_model, build_retry_strategy_model,
}

pub record UserContainer : Type 0 where
  pub name : Text
  pub image : Text
  pub command : List Text
  pub args : List Text
  pub working_dir : Text
  pub image_pull_policy : Text
  pub env : List EnvBuilder
  pub resources : Option ResourceRequirements
  pub volume_mounts : List VolumeBuilder
  pub ports : List ContainerPort
  pub mirror : Option Bool
  pub security_context : Option SecurityContext
  pub lifecycle : Option Lifecycle
  pub readiness_probe : Option Probe
  pub daemon : Option Bool

unfoldable pub build_user_container : UserContainer → ContainerModel
build_user_container uc = record {
  name = uc.name;
  image = uc.image;
  command = uc.command;
  args = uc.args;
  working_dir = uc.working_dir;
  env = build_env_vars uc.env;
  env_from = [];
  resources = uc.resources;
  volume_mounts = build_volume_mount_models uc.volume_mounts;
  image_pull_policy = uc.image_pull_policy;
  ports = uc.ports;
  security_context = uc.security_context;
  stdin = none;
  mirror = uc.mirror;
  lifecycle = uc.lifecycle;
  readiness_probe = uc.readiness_probe;
  liveness_probe = none;
  dependencies = [];
}

pub record SharedTemplateFields : Type 0 where
  pub inputs : List Parameter
  pub outputs : List Parameter
  pub input_artifacts : List ArtifactBuilder
  pub output_artifacts : List ArtifactBuilder
  pub labels : StringMap
  pub annotations : StringMap
  pub timeout : Text
  pub active_deadline_seconds : Option ℤ
  pub retry_strategy : Option RetryStrategy
  pub node_selector : StringMap
  pub service_account_name : Text
  pub metrics : List Metric
  pub daemon : Option Bool
  pub memoize : Option MemoizeModel
  pub synchronization : Option SynchronizationModel
  pub pod_spec_patch : Text
  pub hooks : List (Text × LifecycleHook)
  pub sidecars : List UserContainer
  pub tolerations : List Toleration
  pub affinity : Option Affinity

-- The new value of `out`, and the sidecars.
unfoldable pub assign_shared_template_fields :
    TemplateFields → Text → SharedTemplateFields → Result (TemplateFields × List ContainerModel)
assign_shared_template_fields out name s = do
  inputs ← build_inputs_from_params s.inputs s.input_artifacts
  outputs ← build_outputs_from_params s.outputs s.output_artifacts
  ok (
    record out {
      name = name;
      inputs = inputs;
      outputs = outputs;
      metadata = build_metadata_model s.labels s.annotations;
      timeout = s.timeout;
      active_deadline_seconds = s.active_deadline_seconds;
      retry_strategy = build_retry_strategy_model s.retry_strategy;
      node_selector = s.node_selector;
      service_account_name = s.service_account_name;
      metrics = build_metrics_model s.metrics;
      daemon = s.daemon;
      memoize = s.memoize;
      synchronization = s.synchronization;
      pod_spec_patch = s.pod_spec_patch;
      hooks = s.hooks;
      tolerations = s.tolerations;
      affinity = s.affinity;
    },
    map build_user_container s.sidecars,
  )

-- The fields that Container and Script have in common.
pub record ContainerFields : Type 0 where
  pub name : Text
  pub image : Text
  pub command : List Text
  pub args : List Text
  pub working_dir : Text
  pub image_pull_policy : Text
  pub env : List EnvBuilder
  pub resources : Option ResourceRequirements
  pub volume_mounts : List VolumeBuilder
  pub ports : List ContainerPort
  pub init_containers : List UserContainer
  pub parallelism : Option ℤ
  pub security_context : Option SecurityContext
  pub env_from : List EnvFromSource
  pub readiness_probe : Option Probe
  pub liveness_probe : Option Probe
  pub shared : SharedTemplateFields

pub record Container : Type 0 where
  pub container_fields : ContainerFields
  pub open container_fields use *
  pub archive_location : Option ArtifactLocation

unfoldable pub container_model : Container → ContainerModel
container_model c = record {
  name = [];
  image = c.image;
  command = c.command;
  args = c.args;
  working_dir = c.working_dir;
  env = build_env_vars c.env;
  env_from = c.env_from;
  resources = c.resources;
  volume_mounts = build_volume_mount_models c.volume_mounts;
  image_pull_policy = c.image_pull_policy;
  ports = c.ports;
  security_context = c.security_context;
  stdin = none;
  mirror = none;
  lifecycle = none;
  readiness_probe = c.readiness_probe;
  liveness_probe = c.liveness_probe;
  dependencies = [];
}

unfoldable pub build_container : Container → Result TemplateModel
unfolding container_model
build_container c = do
  fail_if (is_empty c.name) (errorf "container template name cannot be empty" [])
  (out, sidecars) ←
      wrapping "container %q: %w" (c.name ∷ [])
        (assign_shared_template_fields (fields_named []) c.name c.shared)
  ok (
      template
        (record out {
          container = some (container_model c);
          archive_location = c.archive_location;
          init_containers = map build_user_container c.init_containers;
          sidecars = sidecars;
          parallelism = c.parallelism;
        })
        no_dag no_groups)

pub record Script : Type 0 where
  pub container_fields : ContainerFields
  pub open container_fields use *
  pub source : Text
  -- declared, and read by nothing
  pub lifecycle : List (Text × LifecycleHook)

unfoldable pub build_script : Script → Result TemplateModel
build_script s = do
  fail_if (is_empty s.name) (errorf "script template name cannot be empty" [])
  fail_if (is_empty s.source) (errorf "script source cannot be empty" [])
  (out, sidecars) ←
      wrapping "script %q: %w" (s.name ∷ [])
        (assign_shared_template_fields (fields_named []) s.name s.shared)
  ok (
      template
        (record out {
          script = some (record {
            image = s.image;
            command = s.command;
            args = s.args;
            source = s.source;
            working_dir = s.working_dir;
            env = build_env_vars s.env;
            env_from = s.env_from;
            resources = s.resources;
            volume_mounts = build_volume_mount_models s.volume_mounts;
            image_pull_policy = s.image_pull_policy;
            ports = s.ports;
            security_context = s.security_context;
            readiness_probe = s.readiness_probe;
            liveness_probe = s.liveness_probe;
          });
          init_containers = map build_user_container s.init_containers;
          sidecars = sidecars;
          parallelism = s.parallelism;
        })
        no_dag no_groups)

unfoldable pub container_templatable : Container → Templatable
container_templatable c = record { build_template = build_container c; get_name = c.name }

unfoldable pub script_templatable : Script → Templatable
script_templatable s = record { build_template = build_script s; get_name = s.name }
