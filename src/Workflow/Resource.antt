-- ===== src/Workflow/Resource.antt =====
-- workflow.go: the Workflow builder, its validation and its `Build`.
use theo_forge.Prelude.{
  ℕ, Bool, not, ◌&&◌, Text, text, Option, none, some, List, [], ◌∷◌, map, is_empty, is_some, length,
  ltb, if◌then◌else◌, ◌==◌, Result, ok, err, errorf, wrap, entrypoint_missing, fail_if, wrapping,
  traverse, ◌>>=◌, ◌>>◌,
}
use theo_forge.Int.{ℤ}
use theo_forge.Model.Basic.{
  StringMap, Toleration, ImagePullSecret, Metric, MetricsModel, MetadataModel, SynchronizationModel,
}
use theo_forge.Model.Artifacts.{ArgumentsModel}
use theo_forge.Model.Volumes.{VolumeModel, PvcModel}
use theo_forge.Model.Containers.{Affinity}
use theo_forge.Model.Templates.{TemplateModel, LifecycleHook}
use theo_forge.Model.Workflows.{
  TtlStrategy, PodGc, DnsConfig, PodDisruptionBudget, PodSecurityContext, WorkflowTemplateRef,
  ArtifactGcStrategy, ArtifactRepositoryRef, TemplateDefaults, WorkflowModel,
}
use theo_forge.Build.Interfaces.{Templatable, VolumeBuilder}
use theo_forge.Build.Parameters.{Parameter, as_argument}
use theo_forge.Build.Artifacts.{ArtifactBuilder}
use theo_forge.Build.Shared.{RetryStrategy, build_retry_strategy}
use theo_forge.Build.Volumes.{PvcVolume, build_pvc}
use theo_forge.Units.Resources.{Floats}
use theo_forge.Config.Global.{GlobalConfig, resolve_config, dispatch_workflow_hooks}
use theo_forge.Config.Named.{dispatch_named_workflow_hooks}
use theo_forge.Workflow.Pipeline.{build_template_models}
use theo_forge.Workflow.Affine.{colocate_by_label, workflow_label_key, hostname_topology_key}

abbrev pub name_limit : ℕ
name_limit = 63

abbrev pub default_api_version : Text
default_api_version = text "argoproj.io/v1alpha1"

abbrev pub default_kind : Text
default_kind = text "Workflow"

pub record Workflow : Type 0 where
  pub name : Text
  pub generate_name : Text
  pub namespace : Text
  pub api_version : Text
  pub kind : Text
  pub entrypoint : Text
  pub templates : List Templatable
  pub arguments : List Parameter
  pub argument_artifacts : List ArtifactBuilder
  pub volumes : List VolumeBuilder
  pub volume_claim_templates : List PvcVolume
  pub labels : StringMap
  pub annotations : StringMap
  pub service_account_name : Text
  pub parallelism : Option ℤ
  pub active_deadline_seconds : Option ℤ
  pub node_selector : StringMap
  pub tolerations : List Toleration
  pub suspend : Option Bool
  pub host_network : Option Bool
  pub ttl_strategy : Option TtlStrategy
  pub pod_gc : Option PodGc
  pub priority : Option ℤ
  pub on_exit : Text
  pub metrics : List Metric
  pub archive_logs : Option Bool
  pub retry_strategy : Option RetryStrategy
  pub image_pull_secrets : List Text
  pub pod_spec_patch : Text
  pub synchronization : Option SynchronizationModel
  pub hooks : List (Text × LifecycleHook)
  pub dns_config : Option DnsConfig
  pub dns_policy : Text
  pub pod_disruption_budget : Option PodDisruptionBudget
  pub pod_metadata : Option MetadataModel
  pub security_context : Option PodSecurityContext
  pub affinity : Option Affinity
  pub disable_default_affinity : Bool
  pub automount_service_account_token : Option Bool
  pub workflow_template_ref : Option WorkflowTemplateRef
  pub artifact_gc : Option ArtifactGcStrategy
  pub artifact_repository_ref : Option ArtifactRepositoryRef
  pub template_defaults : Option TemplateDefaults
  pub config : Option GlobalConfig

unfoldable pub with_config : Workflow → GlobalConfig → Workflow
with_config w cfg = record w { config = some cfg }

unfoldable pub effective_name : Workflow → Text
effective_name w = if not (is_empty w.name) then w.name else w.generate_name

unfoldable pub validate : Workflow → Result (Unit {0})
validate w = do
  fail_if (not (is_empty w.name) && ltb name_limit (length w.name))
      (errorf "name must be no more than %d characters" (text "63" ∷ []))
  fail_if (not (is_empty w.generate_name) && ltb name_limit (length w.generate_name))
      (errorf "generateName must be no more than %d characters" (text "63" ∷ []))
  fail_if (is_empty w.name && is_empty w.generate_name)
      (errorf "either name or generateName must be set" [])
  fail_if
      (not (is_empty w.templates)
        && (is_empty w.entrypoint && not (is_some w.workflow_template_ref)))
      (wrap "workflow %q: %w" (effective_name w ∷ []) entrypoint_missing)

unfoldable pub build_workflow_arguments : Workflow → Result (Option ArgumentsModel)
build_workflow_arguments w =
    if is_empty w.arguments && is_empty w.argument_artifacts then ok none else (do
      ps ← traverse (λ p. wrapping "argument %q: %w" (p.name ∷ []) (as_argument p)) w.arguments
      arts ← traverse (λ a. wrapping "argument artifact: %w" [] a.build) w.argument_artifacts
      ok (some (record { parameters = ps; artifacts = arts })))

unfoldable pub build_volumes : List VolumeBuilder → Result (List VolumeModel)
build_volumes volumes = traverse (λ v. wrapping "volume: %w" [] v.build_volume) volumes

unfoldable pub build_volume_claim_templates : List PvcVolume → Result (List PvcModel)
build_volume_claim_templates pvcs =
    traverse (λ v. wrapping "volume claim template: %w" [] (build_pvc v)) pvcs

unfoldable pub default_pod_affinity_for : Option Workflow → Option Affinity
default_pod_affinity_for none = none
default_pod_affinity_for (some w) =
    if is_empty w.name
    then (if is_empty w.generate_name
        then none
        else some
            (colocate_by_label workflow_label_key (text "{{workflow.name}}") hostname_topology_key))
    else some (colocate_by_label workflow_label_key w.name hostname_topology_key)

unfoldable pub resolve_affinity : Workflow → Option Affinity
resolve_affinity w = elim w.affinity [
  | some a ↦ some a
  | none ↦
      if w.disable_default_affinity
      then none
      else if is_empty w.volume_claim_templates
      then none
      else default_pod_affinity_for (some w)
]

unfoldable pub build_metrics : Workflow → Option MetricsModel
build_metrics w = if is_empty w.metrics then none else some (record { prometheus = w.metrics })

unfoldable pub build_image_pull_secrets : Workflow → List ImagePullSecret
build_image_pull_secrets w = map (λ s. record { name = s }) w.image_pull_secrets

-- The model that `Build` fills in, before the workflow hooks.
unfoldable pub workflow_model :
    Workflow
    → List TemplateModel
    → Option ArgumentsModel
    → List VolumeModel
    → List PvcModel
    → WorkflowModel
workflow_model w templates args vols pvcs = record {
  api_version = if is_empty w.api_version then default_api_version else w.api_version;
  kind = if is_empty w.kind then default_kind else w.kind;
  metadata = record {
    name = w.name;
    generate_name = w.generate_name;
    namespace = w.namespace;
    labels = w.labels;
    annotations = w.annotations;
  };
  spec = record {
    entrypoint = w.entrypoint;
    templates = templates;
    arguments = args;
    volumes = vols;
    volume_claim_templates = pvcs;
    service_account_name = w.service_account_name;
    parallelism = w.parallelism;
    active_deadline_seconds = w.active_deadline_seconds;
    node_selector = w.node_selector;
    tolerations = w.tolerations;
    suspend = w.suspend;
    host_network = w.host_network;
    ttl_strategy = w.ttl_strategy;
    pod_gc = w.pod_gc;
    priority = w.priority;
    on_exit = w.on_exit;
    metrics = build_metrics w;
    archive_logs = w.archive_logs;
    retry_strategy = elim w.retry_strategy [
      | none ↦ none
      | some rs ↦ some (build_retry_strategy rs)
    ];
    image_pull_secrets = build_image_pull_secrets w;
    pod_spec_patch = w.pod_spec_patch;
    synchronization = w.synchronization;
    hooks = w.hooks;
    dns_config = w.dns_config;
    dns_policy = w.dns_policy;
    pod_disruption_budget = w.pod_disruption_budget;
    pod_metadata = w.pod_metadata;
    security_context = w.security_context;
    affinity = resolve_affinity w;
    automount_service_account_token = w.automount_service_account_token;
    workflow_metadata = none;
    workflow_template_ref = w.workflow_template_ref;
    artifact_gc = w.artifact_gc;
    artifact_repository_ref = w.artifact_repository_ref;
    template_defaults = w.template_defaults;
    shutdown = [];
  };
  status = none;
}

unfoldable pub hooked_workflow : GlobalConfig → Workflow → WorkflowModel → Result WorkflowModel
hooked_workflow cfg w m =
    let (m, failed) = dispatch_named_workflow_hooks cfg (dispatch_workflow_hooks cfg m) in
    elim failed [ none ↦ ok m | some e ↦ err (wrap "workflow %q: %w" (effective_name w ∷ []) e) ]

-- `global` is the singleton that `config.GetGlobal()` returns.
unfoldable pub build : Floats → GlobalConfig → Workflow → Result WorkflowModel
build fl global w = do
  validate w
  let cfg = resolve_config global w.config
  templates ← build_template_models fl cfg w.templates
  args ← build_workflow_arguments w
  vols ← build_volumes w.volumes
  pvcs ← build_volume_claim_templates w.volume_claim_templates
  hooked_workflow cfg w (workflow_model w templates args vols pvcs)

unfoldable pub find_parameter : Text → List Parameter → Option Parameter
find_parameter name [] = none
find_parameter name (p ∷ ps) = if p.name == name then some p else find_parameter name ps

unfoldable pub get_parameter : Workflow → Text → Result Parameter
get_parameter w name = elim (find_parameter name w.arguments) [
  | some p ↦ ok p
  | none ↦ err (errorf "parameter %q not found in workflow arguments" (name ∷ []))
]

unfoldable pub get_namespace : Workflow → Text
get_namespace w = w.namespace
