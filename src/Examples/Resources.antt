-- ===== src/Examples/Resources.antt =====
-- Workflows and the templates that they build.
use theo_forge.Prelude.{
  false, text, none, [], ◌∷◌, ◌≡◌, ◌↔◌, inr, refl, arith, All, Error, errorf, wrap, ok, err,
  traverse,
}
use mathlib.Core.List.{Forall₂}
use theo_forge.Model.Templates.{template, fields_named, no_dag, no_groups}
use theo_forge.Model.Workflows.{WorkflowModel, CronWorkflowModel}
use theo_forge.Build.Interfaces.{Templatable}
use theo_forge.Config.Global.{
  new, resolve_config, dispatch_template_hooks, dispatch_workflow_hooks, run_hooks,
  apply_template_defaults, default_fields,
}
use theo_forge.Workflow.Pipeline.{
  validate_built_template, build_template_models, build_template_model, if_present, hooked,
}
use theo_forge.Config.Named.{dispatch, dispatch_named_template_hooks, dispatch_named_workflow_hooks}
use theo_forge.Workflow.Checked.{IsBuilt, IsTurn, build_template_models_iff}
use theo_forge.Workflow.Failing.{IsFailure, build_template_models-error}
use theo_forge.Workflow.Resource.{
  Workflow, validate, resolve_affinity, build, workflow_model, hooked_workflow,
  build_workflow_arguments, build_volumes, build_volume_claim_templates,
}
use theo_forge.Workflow.Naming.{IsValid, Chooses, resolve_affinity-Chooses}
use theo_forge.Workflow.Building.{Builds, build_iff, HasNoHooks, build-unhooked}
use theo_forge.Workflow.Templates.{CronWorkflow, cron_workflow_model, build_cron_workflow}
use theo_forge.Workflow.Scheduling.{BuildsCron, build_cron_workflow_iff}
use theo_forge.Examples.Floating.{fixed}

abbrev plain : Templatable
plain = record {
  build_template = ok (template (fields_named (text "main")) no_dag no_groups);
  get_name = text "main";
}

abbrev failing : Templatable
failing = record { build_template = err (errorf "bad" []); get_name = text "bad" }

abbrev pub hello : Workflow
hello = record {
  name = [];
  generate_name = text "hello-";
  namespace = [];
  api_version = [];
  kind = [];
  entrypoint = text "main";
  templates = plain ∷ [];
  arguments = [];
  argument_artifacts = [];
  volumes = [];
  volume_claim_templates = [];
  labels = [];
  annotations = [];
  service_account_name = [];
  parallelism = none;
  active_deadline_seconds = none;
  node_selector = [];
  tolerations = [];
  suspend = none;
  host_network = none;
  ttl_strategy = none;
  pod_gc = none;
  priority = none;
  on_exit = [];
  metrics = [];
  archive_logs = none;
  retry_strategy = none;
  image_pull_secrets = [];
  pod_spec_patch = [];
  synchronization = none;
  hooks = [];
  dns_config = none;
  dns_policy = [];
  pod_disruption_budget = none;
  pod_metadata = none;
  security_context = none;
  affinity = none;
  disable_default_affinity = false;
  automount_service_account_token = none;
  workflow_template_ref = none;
  artifact_gc = none;
  artifact_repository_ref = none;
  template_defaults = none;
  config = none;
}

hello-IsValid : IsValid hello
hello-IsValid = record {
  name_fits = omega arith;
  generate_name_fits = omega arith;
  named = inr (λ q. ground (arith, q));
  entered = λ _ q. ground (arith, q);
}

resolve_affinity_example : Chooses hello (resolve_affinity hello)
resolve_affinity_example = resolve_affinity-Chooses hello hello-IsValid

build_template_models_example :
    (build_template_models fixed new (plain ∷ [])
      ≡ ok (template (fields_named (text "main")) no_dag no_groups ∷ []))
    ↔ Forall₂
        (IsTurn fixed new)
        (plain ∷ [])
        (template (fields_named (text "main")) no_dag no_groups ∷ [])
build_template_models_example =
    build_template_models_iff fixed new (plain ∷ [])
      (template (fields_named (text "main")) no_dag no_groups ∷ [])

abbrev bad : Error
bad = wrap "template %q: %w" (text "bad" ∷ []) (errorf "bad" [])

bad-fails : build_template_models fixed new (plain ∷ failing ∷ []) ≡ err bad
unfolding build_template_models traverse build_template_model validate_built_template if_present
    hooked dispatch_named_template_hooks dispatch_template_hooks run_hooks dispatch
    apply_template_defaults default_fields
bad-fails = refl

build_template_models-error_example : IsFailure fixed new (plain ∷ failing ∷ []) bad
build_template_models-error_example =
    build_template_models-error fixed new (plain ∷ failing ∷ []) bad bad-fails

abbrev pub hello_model : WorkflowModel
hello_model =
    workflow_model hello (template (fields_named (text "main")) no_dag no_groups ∷ []) none [] []

pub hello-built : build fixed new hello ≡ ok hello_model
unfolding build hooked_workflow dispatch_workflow_hooks dispatch_named_workflow_hooks resolve_config
    validate build_workflow_arguments build_volumes build_volume_claim_templates
    build_template_models traverse build_template_model validate_built_template if_present hooked
    dispatch_named_template_hooks dispatch_template_hooks run_hooks dispatch apply_template_defaults
    default_fields
hello-built = refl

build_example :
    (build fixed new hello ≡ ok hello_model)
    ↔ Builds fixed (resolve_config new hello.config) hello hello_model
build_example = build_iff fixed new hello hello_model

no_hooks : HasNoHooks (resolve_config new hello.config)
unfolding resolve_config
no_hooks = record {
  of_templates = record { anonymous = refl; named = refl };
  anonymous = refl;
  named = refl;
}

build-unhooked_example :
    All (IsBuilt fixed) hello_model.spec.templates × Chooses hello hello_model.spec.affinity
build-unhooked_example = build-unhooked fixed new hello hello_model no_hooks hello-built

abbrev nightly : CronWorkflow
nightly = record {
  name = text "nightly";
  namespace = [];
  api_version = [];
  labels = [];
  annotations = [];
  schedule = text "0 2 * * *";
  timezone = [];
  suspend = none;
  concurrency_policy = [];
  starting_deadline_seconds = none;
  successful_jobs_history_limit = none;
  failed_jobs_history_limit = none;
  schedules = [];
  when = [];
  workflow_metadata = none;
  stop_strategy = none;
  entrypoint = text "main";
  templates = plain ∷ [];
  arguments = [];
  volumes = [];
  service_account_name = [];
  config = none;
}

abbrev nightly_model : CronWorkflowModel
nightly_model =
    cron_workflow_model nightly (template (fields_named (text "main")) no_dag no_groups ∷ []) none
      []

build_cron_workflow_example :
    (build_cron_workflow fixed new nightly ≡ ok nightly_model)
    ↔ BuildsCron fixed (resolve_config new nightly.config) nightly nightly_model
build_cron_workflow_example = build_cron_workflow_iff fixed new nightly nightly_model
