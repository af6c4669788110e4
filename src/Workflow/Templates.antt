-- ===== src/Workflow/Templates.antt =====
-- workflow_template.go: WorkflowTemplate, ClusterWorkflowTemplate and CronWorkflow.
use theo_forge.Prelude.{
  Bool, ◌&&◌, Text, text, String, Option, none, some, List, [], ◌∷◌, is_empty, length, ltb,
  if◌then◌else◌, Result, ok, errorf, fail_if, wrapping, traverse, ◌>>=◌, ◌>>◌,
}
use theo_forge.Int.{ℤ}
use theo_forge.Model.Basic.{StringMap}
use theo_forge.Model.Artifacts.{ArgumentsModel}
use theo_forge.Model.Volumes.{VolumeModel}
use theo_forge.Model.Templates.{TemplateModel}
use theo_forge.Model.Workflows.{
  WorkflowSpec, WorkflowMetadata, StopStrategy, WorkflowTemplateModel, CronWorkflowModel,
}
use theo_forge.Build.Interfaces.{Templatable, VolumeBuilder}
use theo_forge.Build.Parameters.{Parameter, as_argument}
use theo_forge.Units.Resources.{Floats}
use theo_forge.Config.Global.{
  GlobalConfig, resolve_config, dispatch_workflow_template_hooks, dispatch_cron_workflow_hooks,
}
use theo_forge.Workflow.Pipeline.{build_template_models}
use theo_forge.Workflow.Resource.{name_limit, default_api_version, build_volumes}

pub record WorkflowTemplate : Type 0 where
  pub name : Text
  pub namespace : Text
  pub api_version : Text
  pub labels : StringMap
  pub annotations : StringMap
  pub entrypoint : Text
  pub templates : List Templatable
  pub arguments : List Parameter
  pub volumes : List VolumeBuilder
  pub service_account_name : Text
  pub config : Option GlobalConfig

pub record ClusterWorkflowTemplate : Type 0 where
  pub name : Text
  pub api_version : Text
  pub labels : StringMap
  pub annotations : StringMap
  pub entrypoint : Text
  pub templates : List Templatable
  pub arguments : List Parameter
  pub service_account_name : Text
  pub config : Option GlobalConfig

pub record CronWorkflow : Type 0 where
  pub name : Text
  pub namespace : Text
  pub api_version : Text
  pub labels : StringMap
  pub annotations : StringMap
  pub schedule : Text
  pub timezone : Text
  pub suspend : Option Bool
  pub concurrency_policy : Text
  pub starting_deadline_seconds : Option ℤ
  pub successful_jobs_history_limit : Option ℤ
  pub failed_jobs_history_limit : Option ℤ
  pub schedules : List Text
  pub when : Text
  pub workflow_metadata : Option WorkflowMetadata
  pub stop_strategy : Option StopStrategy
  pub entrypoint : Text
  pub templates : List Templatable
  pub arguments : List Parameter
  pub volumes : List VolumeBuilder
  pub service_account_name : Text
  pub config : Option GlobalConfig

unfoldable pub template_with_config : WorkflowTemplate → GlobalConfig → WorkflowTemplate
template_with_config wt cfg = record wt { config = some cfg }

unfoldable pub cluster_with_config :
    ClusterWorkflowTemplate → GlobalConfig → ClusterWorkflowTemplate
cluster_with_config cwt cfg = record cwt { config = some cfg }

unfoldable pub cron_with_config : CronWorkflow → GlobalConfig → CronWorkflow
cron_with_config cw cfg = record cw { config = some cfg }

-- The guards on the name that the three resources share; `long` is the message for one too long.
unfoldable pub check_name : String → String → Text → Result (Unit {0})
check_name missing long name = do
  fail_if (is_empty name) (errorf missing [])
  fail_if (ltb name_limit (length name)) (errorf long (text "63" ∷ []))

unfoldable pub validate_workflow_template : WorkflowTemplate → Result (Unit {0})
validate_workflow_template wt =
    check_name "workflow template name cannot be empty" "name must be no more than %d characters"
      wt.name

unfoldable pub validate_cluster_workflow_template : ClusterWorkflowTemplate → Result (Unit {0})
validate_cluster_workflow_template cwt =
    check_name "cluster workflow template name cannot be empty"
      "cluster workflow template name must be no more than %d characters" cwt.name

unfoldable pub validate_cron_workflow : CronWorkflow → Result (Unit {0})
validate_cron_workflow cw = do
  check_name "cron workflow name cannot be empty"
      "cron workflow name must be no more than %d characters" cw.name
  fail_if (is_empty cw.schedule && is_empty cw.schedules)
      (errorf "cron workflow schedule or schedules must be set" [])

-- `if len(Arguments) > 0 { … }`
unfoldable pub parameter_arguments : List Parameter → Result (Option ArgumentsModel)
parameter_arguments arguments = do
  ps ← traverse (λ p. wrapping "argument %q: %w" (p.name ∷ []) (as_argument p)) arguments
  ok (if is_empty arguments then none else some (record { parameters = ps; artifacts = [] }))

-- The fields of the spec that these builders fill; the others have their zero value.
unfoldable pub template_spec :
    Text → List TemplateModel → Option ArgumentsModel → List VolumeModel → Text → WorkflowSpec
template_spec entrypoint templates args vols account = record {
  entrypoint = entrypoint;
  templates = templates;
  arguments = args;
  volumes = vols;
  volume_claim_templates = [];
  service_account_name = account;
  parallelism = none;
  active_deadline_seconds = none;
  node_selector = [];
  tolerations = [];
  suspend = none;
  host_network = none;
  ttl_strategy = none;
  pod_gc = none;
  priority = none;
  on_exit = [];
  metrics = none;
  archive_logs = none;
  retry_strategy = none;
  image_pull_secrets = [];
  pod_spec_patch = [];
  synchronization = none;
  hooks = [];
  dns_config = none;
  dns_policy = [];
  pod_disruption_budget = none;
  pod_metadata = none;
  security_context = none;
  affinity = none;
  automount_service_account_token = none;
  workflow_metadata = none;
  workflow_template_ref = none;
  artifact_gc = none;
  artifact_repository_ref = none;
  template_defaults = none;
  shutdown = [];
}

abbrev pub version_or_default : Text → Text
version_or_default v = if is_empty v then default_api_version else v

-- The model that `Build` of a CronWorkflow fills in, before the hooks.
unfoldable pub cron_workflow_model :
    CronWorkflow → List TemplateModel → Option ArgumentsModel → List VolumeModel → CronWorkflowModel
cron_workflow_model cw templates args vols = record {
  api_version = version_or_default cw.api_version;
  kind = text "CronWorkflow";
  metadata = record {
    name = cw.name;
    generate_name = [];
    namespace = cw.namespace;
    labels = cw.labels;
    annotations = cw.annotations;
  };
  spec = record {
    schedule = cw.schedule;
    schedules = cw.schedules;
    timezone = cw.timezone;
    when = cw.when;
    suspend = cw.suspend;
    concurrency_policy = cw.concurrency_policy;
    starting_deadline_seconds = cw.starting_deadline_seconds;
    successful_jobs_history_limit = cw.successful_jobs_history_limit;
    failed_jobs_history_limit = cw.failed_jobs_history_limit;
    workflow_spec = template_spec cw.entrypoint templates args vols cw.service_account_name;
    workflow_metadata = cw.workflow_metadata;
    stop_strategy = cw.stop_strategy;
  };
}

module _ (fl : Floats) (global : GlobalConfig) where
  unfoldable pub build_workflow_template : WorkflowTemplate → Result WorkflowTemplateModel
  build_workflow_template wt = do
    validate_workflow_template wt
    let cfg = resolve_config global wt.config
    templates ← build_template_models fl cfg wt.templates
    args ← parameter_arguments wt.arguments
    vols ← build_volumes wt.volumes
    ok (
        dispatch_workflow_template_hooks cfg (record {
          api_version = version_or_default wt.api_version;
          kind = text "WorkflowTemplate";
          metadata = record {
            name = wt.name;
            generate_name = [];
            namespace = wt.namespace;
            labels = wt.labels;
            annotations = wt.annotations;
          };
          spec = template_spec wt.entrypoint templates args vols wt.service_account_name;
        }))

  unfoldable pub build_cluster_workflow_template :
      ClusterWorkflowTemplate → Result WorkflowTemplateModel
  build_cluster_workflow_template cwt = do
    validate_cluster_workflow_template cwt
    let cfg = resolve_config global cwt.config
    templates ← build_template_models fl cfg cwt.templates
    args ← parameter_arguments cwt.arguments
    ok (
        dispatch_workflow_template_hooks cfg (record {
          api_version = version_or_default cwt.api_version;
          kind = text "ClusterWorkflowTemplate";
          metadata = record {
            name = cwt.name;
            generate_name = [];
            namespace = [];
            labels = cwt.labels;
            annotations = cwt.annotations;
          };
          spec = template_spec cwt.entrypoint templates args [] cwt.service_account_name;
        }))

  unfoldable pub build_cron_workflow : CronWorkflow → Result CronWorkflowModel
  build_cron_workflow cw = do
    validate_cron_workflow cw
    let cfg = resolve_config global cw.config
    templates ← build_template_models fl cfg cw.templates
    args ← parameter_arguments cw.arguments
    vols ← build_volumes cw.volumes
    ok (dispatch_cron_workflow_hooks cfg (cron_workflow_model cw templates args vols))
