-- ===== src/Workflow/CronFilled.antt =====
-- The model that `Build` of a CronWorkflow in workflow_template.go fills in, before the hooks, field by field.
use theo_forge.Prelude.{Text, Option, none, List, [], ◌≡◌, refl, text}
use theo_forge.Model.Artifacts.{ArgumentsModel}
use theo_forge.Model.Volumes.{VolumeModel}
use theo_forge.Model.Templates.{TemplateModel}
use theo_forge.Model.Workflows.{CronWorkflowModel}
use theo_forge.Model.Workflows.{WorkflowSpec}
use theo_forge.Config.Filling.{Filled}
use theo_forge.Workflow.Filled.{given-Filled, Filled-given}
use theo_forge.Workflow.Templates.{CronWorkflow, cron_workflow_model, template_spec}

-- A spec of which no field is set.
abbrev pub empty_spec : WorkflowSpec
empty_spec = record {
  entrypoint = [];
  templates = [];
  arguments = none;
  volumes = [];
  volume_claim_templates = [];
  service_account_name = [];
  parallelism = none;
  active_deadline_seconds = none;
  node_selector = [];
  tolerations = [];
  suspend = none;
  host_network = none;
  ttl_strategy = none;
  pod_gc = none;
  priority = none;
  on_exit = [];
  metrics = none;
  archive_logs = none;
  retry_strategy = none;
  image_pull_secrets = [];
  pod_spec_patch = [];
  synchronization = none;
  hooks = [];
  dns_config = none;
  dns_policy = [];
  pod_disruption_budget = none;
  pod_metadata = none;
  security_context = none;
  affinity = none;
  automount_service_account_token = none;
  workflow_metadata = none;
  workflow_template_ref = none;
  artifact_gc = none;
  artifact_repository_ref = none;
  template_defaults = none;
  shutdown = [];
}

-- The model of a cron workflow: the version is filled in, and the spec of its workflow has the parts that
-- have been built and, in its other fields, nothing.
pub record CronFilled (cw : CronWorkflow) (templates : List TemplateModel)
    (args : Option ArgumentsModel) (vols : List VolumeModel) (m : CronWorkflowModel) : Type 0 where
  pub version : Text
  pub with_version : Filled cw.api_version (text "argoproj.io/v1alpha1") version
  pub head : (m.api_version ≡ version) × (m.kind ≡ text "CronWorkflow")
  pub metadata : m.metadata ≡ record {
    name = cw.name;
    generate_name = [];
    namespace = cw.namespace;
    labels = cw.labels;
    annotations = cw.annotations;
  }
  pub spec : m.spec ≡ record {
    schedule = cw.schedule;
    schedules = cw.schedules;
    timezone = cw.timezone;
    when = cw.when;
    suspend = cw.suspend;
    concurrency_policy = cw.concurrency_policy;
    starting_deadline_seconds = cw.starting_deadline_seconds;
    successful_jobs_history_limit = cw.successful_jobs_history_limit;
    failed_jobs_history_limit = cw.failed_jobs_history_limit;
    workflow_spec = record empty_spec {
      entrypoint = cw.entrypoint;
      templates = templates;
      arguments = args;
      volumes = vols;
      service_account_name = cw.service_account_name;
    };
    workflow_metadata = cw.workflow_metadata;
    stop_strategy = cw.stop_strategy;
  }

pub cron_workflow_model-CronFilled :
    (cw : CronWorkflow) (templates : List TemplateModel) (args : Option ArgumentsModel)
    (vols : List VolumeModel)
    → CronFilled cw templates args vols (cron_workflow_model cw templates args vols)
unfolding cron_workflow_model template_spec
cron_workflow_model-CronFilled cw templates args vols = record {
  version = _;
  with_version = given-Filled cw.api_version _;
  head = (refl, refl);
  metadata = refl;
  spec = refl;
}

pub CronFilled-cron_workflow_model :
    (cw : CronWorkflow) (templates : List TemplateModel) (args : Option ArgumentsModel)
    (vols : List VolumeModel) (m : CronWorkflowModel)
    → CronFilled cw templates args vols m
    → cron_workflow_model cw templates args vols ≡ m
unfolding cron_workflow_model template_spec
CronFilled-cron_workflow_model cw templates args vols m f =
    let parts : m ≡ record {
      api_version = m.api_version;
      kind = m.kind;
      metadata = m.metadata;
      spec = m.spec;
    } =
      refl in
    let version = Filled-given cw.api_version _ _ f.with_version in
    rw (parts, f.head.0, f.head.1, f.metadata, f.spec, version) refl
