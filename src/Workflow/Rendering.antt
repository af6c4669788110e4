-- ===== src/Workflow/Rendering.antt =====
-- workflow.go and workflow_template.go: the resources as documents, built and then encoded.
use theo_forge.Prelude.{Text, Result, ◌>>=◌}
use theo_forge.Model.Workflows.{WorkflowModel}
use theo_forge.Units.Resources.{Floats}
use theo_forge.Config.Global.{GlobalConfig}
use theo_forge.Workflow.Resource.{Workflow, build}
use theo_forge.Workflow.Templates.{
  WorkflowTemplate, ClusterWorkflowTemplate, CronWorkflow, build_workflow_template,
  build_cluster_workflow_template, build_cron_workflow,
}
use theo_forge.Serialize.Documents.{
  Codec, workflow_to_dict, workflow_to_json, workflow_to_yaml, workflow_from_yaml,
  workflow_from_json, workflow_template_to_yaml, cron_workflow_to_yaml, cron_workflow_to_json,
}

module _ {Dict : Type 0} (codec : Codec Dict) where
  -- `FromYAML`
  unfoldable pub from_yaml : Text → Result WorkflowModel
  from_yaml yaml = workflow_from_yaml codec yaml

  -- `FromJSON`
  unfoldable pub from_json : Text → Result WorkflowModel
  from_json json = workflow_from_json codec json

  module _ (fl : Floats) (global : GlobalConfig) where
    unfoldable pub to_dict : Workflow → Result Dict
    to_dict w = do m ← build fl global w; workflow_to_dict codec m

    unfoldable pub to_json : Workflow → Result Text
    to_json w = do m ← build fl global w; workflow_to_json codec m

    unfoldable pub to_yaml : Workflow → Result Text
    to_yaml w = do m ← build fl global w; workflow_to_yaml codec m

    unfoldable pub template_to_yaml : WorkflowTemplate → Result Text
    template_to_yaml wt = do
      m ← build_workflow_template fl global wt
      workflow_template_to_yaml codec m

    unfoldable pub cluster_to_yaml : ClusterWorkflowTemplate → Result Text
    cluster_to_yaml cwt = do
      m ← build_cluster_workflow_template fl global cwt
      workflow_template_to_yaml codec m

    unfoldable pub cron_to_yaml : CronWorkflow → Result Text
    cron_to_yaml cw = do m ← build_cron_workflow fl global cw; cron_workflow_to_yaml codec m

    unfoldable pub cron_to_json : CronWorkflow → Result Text
    cron_to_json cw = do m ← build_cron_workflow fl global cw; cron_workflow_to_json codec m
