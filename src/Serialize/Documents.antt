-- ===== src/Serialize/Documents.antt =====
-- serialize/serialize.go: documents from models, and models from documents.
use theo_forge.Prelude.{
  Text, text, [], ◌∷◌, not, ◌&&◌, is_empty, if◌then◌else◌, ◌==◌, Result, ok, errorf, fail_if, ◌>>=◌,
  ◌>>◌,
}
use theo_forge.Model.Workflows.{WorkflowModel, WorkflowTemplateModel, CronWorkflowModel}

-- The encoders and decoders: those of `sigs.k8s.io/yaml`, by type, and those of `encoding/json`, with
-- `Dict` for `map[string]interface{}`.
pub record Codec (Dict : Type 0) : Type 0 where
  pub yaml_marshal_workflow : WorkflowModel → Result Text
  pub yaml_marshal_template : WorkflowTemplateModel → Result Text
  pub yaml_marshal_cron : CronWorkflowModel → Result Text
  pub yaml_unmarshal_workflow : Text → Result WorkflowModel
  pub yaml_unmarshal_template : Text → Result WorkflowTemplateModel
  pub yaml_unmarshal_cron : Text → Result CronWorkflowModel
  pub json_marshal_workflow : WorkflowModel → Result Text
  pub json_indent_workflow : WorkflowModel → Result Text
  pub json_indent_cron : CronWorkflowModel → Result Text
  pub json_unmarshal_workflow : Text → Result WorkflowModel
  pub json_unmarshal_dict : Text → Result Dict

abbrev pub cluster_kind : Text
cluster_kind = text "ClusterWorkflowTemplate"

module _ {Dict : Type 0} (codec : Codec Dict) where
  unfoldable pub workflow_to_yaml : WorkflowModel → Result Text
  workflow_to_yaml m = codec.yaml_marshal_workflow m

  unfoldable pub workflow_to_json : WorkflowModel → Result Text
  workflow_to_json m = codec.json_indent_workflow m

  unfoldable pub workflow_to_dict : WorkflowModel → Result Dict
  workflow_to_dict m = do data_ ← codec.json_marshal_workflow m; codec.json_unmarshal_dict data_

  unfoldable pub workflow_from_yaml : Text → Result WorkflowModel
  workflow_from_yaml yaml = codec.yaml_unmarshal_workflow yaml

  unfoldable pub workflow_from_json : Text → Result WorkflowModel
  workflow_from_json json = codec.json_unmarshal_workflow json

  unfoldable pub workflow_template_to_yaml : WorkflowTemplateModel → Result Text
  workflow_template_to_yaml m = codec.yaml_marshal_template m

  unfoldable pub cron_workflow_to_yaml : CronWorkflowModel → Result Text
  cron_workflow_to_yaml m = codec.yaml_marshal_cron m

  unfoldable pub cron_workflow_to_json : CronWorkflowModel → Result Text
  cron_workflow_to_json m = codec.json_indent_cron m

  unfoldable pub workflow_template_from_yaml : Text → Result WorkflowTemplateModel
  workflow_template_from_yaml yaml = codec.yaml_unmarshal_template yaml

  unfoldable pub cron_workflow_from_yaml : Text → Result CronWorkflowModel
  cron_workflow_from_yaml yaml = codec.yaml_unmarshal_cron yaml

  unfoldable pub cluster_workflow_template_to_yaml : WorkflowTemplateModel → Result Text
  cluster_workflow_template_to_yaml m =
      workflow_template_to_yaml (if is_empty m.kind then record m { kind = cluster_kind } else m)

  unfoldable pub cluster_workflow_template_from_yaml : Text → Result WorkflowTemplateModel
  cluster_workflow_template_from_yaml yaml = do
    m ← workflow_template_from_yaml yaml
    fail_if (not (is_empty m.kind) && not (m.kind == cluster_kind))
        (errorf "serialize: expected Kind=ClusterWorkflowTemplate, got %q" (m.kind ∷ []))
    ok m
