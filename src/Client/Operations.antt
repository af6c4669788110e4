-- ===== src/Client/Operations.antt =====
-- client/client.go and client/template_ops.go: the operations on workflows, templates and cron
-- workflows.
use theo_forge.Prelude.{
  Text, text, String, none, some, List, [], ◌++◌, is_empty, if◌then◌else◌, Result, ok, wrapping,
}
use theo_forge.Model.Workflows.{WorkflowModel, WorkflowTemplateModel, CronWorkflowModel}
use theo_forge.Client.Names.{
  validate_k8s_namespace, workflows_path, workflow_path, workflow_action_path,
}
use theo_forge.Client.Transport.{
  Net, workflow_body, template_body, cron_body, ArgoServerInfo, ArgoServerVersion,
}
use theo_forge.Client.Requests.{Client, lift, ◌>>=◌, ◌>>◌, service_of, do_request}

abbrev method_get : Text
method_get = text "GET"

abbrev method_post : Text
method_post = text "POST"

abbrev method_put : Text
method_put = text "PUT"

abbrev method_delete : Text
method_delete = text "DELETE"

-- `Buildable`, as what its methods return; `TemplateBuildable` and `CronBuildable` are the results of
-- their `Build`.
pub record Buildable : Type 0 where
  pub build : Result WorkflowModel
  pub get_namespace : Text

-- `if namespace == "" { namespace = s.Namespace }`
unfoldable pub or_default : Text → Client Text
or_default namespace = do
  s ← service_of
  lift (ok (if is_empty namespace then s.namespace else namespace))

-- `if err := json.Unmarshal(respBody, &result); err != nil { ... }; return result, nil`
abbrev pub decode {ℓ} : {A : Type ℓ} → String → (Text → Result A) → Text → Client A
decode format unmarshal resp_body = lift (wrapping format [] (unmarshal resp_body))

module _ (net : Net) where
  unfoldable pub create_workflow_from_model : WorkflowModel → Text → Client WorkflowModel
  create_workflow_from_model model namespace = do
    ns ← or_default namespace
    path ← lift (workflows_path net.path_escape ns)
    resp_body ←
        do_request net method_post path
          (some (workflow_body (record { workflow = model; namespace = [] })))
    decode "unmarshal response: %w" net.unmarshal_workflow resp_body

  unfoldable pub get_workflow : Text → Text → Client WorkflowModel
  get_workflow name namespace = do
    ns ← or_default namespace
    path ← lift (workflow_path net.path_escape ns name)
    resp_body ← do_request net method_get path none
    decode "unmarshal response: %w" net.unmarshal_workflow resp_body

  unfoldable pub delete_workflow : Text → Text → Client (Unit {0})
  delete_workflow name namespace = do
    ns ← or_default namespace
    path ← lift (workflow_path net.path_escape ns name)
    resp_body ← do_request net method_delete path none
    lift (ok tt)

  unfoldable pub list_workflows : Text → Client (List WorkflowModel)
  list_workflows namespace = do
    ns ← or_default namespace
    path ← lift (workflows_path net.path_escape ns)
    resp_body ← do_request net method_get path none
    result ← decode "unmarshal response: %w" net.unmarshal_list resp_body
    lift (ok result.items)

  unfoldable pub lint_workflow_from_model : WorkflowModel → Text → Client WorkflowModel
  lint_workflow_from_model model namespace = do
    ns ← or_default namespace
    base ← lift (workflows_path net.path_escape ns)
    resp_body ←
        do_request net method_post (base ++ text "/lint")
          (some (workflow_body (record { workflow = model; namespace = [] })))
    decode "unmarshal response: %w" net.unmarshal_workflow resp_body

  unfoldable pub create_workflow : Buildable → Client WorkflowModel
  create_workflow b = do
    model ← lift (wrapping "build workflow: %w" [] b.build)
    create_workflow_from_model model b.get_namespace

  unfoldable pub lint_workflow : Buildable → Client WorkflowModel
  lint_workflow b = do
    model ← lift (wrapping "build workflow: %w" [] b.build)
    lint_workflow_from_model model b.get_namespace

  unfoldable pub lifecycle_op : Text → Text → Text → Client (Unit {0})
  lifecycle_op name namespace action = do
    ns ← or_default namespace
    path ← lift (workflow_action_path net.path_escape ns name action)
    resp_body ← do_request net method_put path none
    lift (ok tt)

  unfoldable pub stop_workflow : Text → Text → Client (Unit {0})
  stop_workflow name namespace = lifecycle_op name namespace (text "stop")

  unfoldable pub terminate_workflow : Text → Text → Client (Unit {0})
  terminate_workflow name namespace = lifecycle_op name namespace (text "terminate")

  unfoldable pub suspend_workflow : Text → Text → Client (Unit {0})
  suspend_workflow name namespace = lifecycle_op name namespace (text "suspend")

  unfoldable pub resume_workflow : Text → Text → Client (Unit {0})
  resume_workflow name namespace = lifecycle_op name namespace (text "resume")

  unfoldable pub get_info : Client ArgoServerInfo
  get_info = do
    resp_body ← do_request net method_get (text "/api/v1/info") none
    decode "unmarshal info: %w" net.unmarshal_info resp_body

  unfoldable pub get_version : Client ArgoServerVersion
  get_version = do
    resp_body ← do_request net method_get (text "/api/v1/version") none
    decode "unmarshal version: %w" net.unmarshal_version resp_body

  unfoldable pub create_workflow_template_from_model :
      WorkflowTemplateModel → Text → Client WorkflowTemplateModel
  create_workflow_template_from_model m namespace = do
    ns ← or_default namespace
    lift (validate_k8s_namespace ns)
    resp_body ←
        do_request net method_post (text "/api/v1/workflow-templates/" ++ ns)
          (some (template_body (record { template = m; namespace = [] })))
    decode "unmarshal response: %w" net.unmarshal_template resp_body

  unfoldable pub create_workflow_template :
      Result WorkflowTemplateModel → Text → Client WorkflowTemplateModel
  create_workflow_template build namespace = do
    m ← lift (wrapping "build workflow template: %w" [] build)
    create_workflow_template_from_model m namespace

  unfoldable pub create_cron_workflow_from_model :
      CronWorkflowModel → Text → Client CronWorkflowModel
  create_cron_workflow_from_model m namespace = do
    ns ← or_default namespace
    lift (validate_k8s_namespace ns)
    resp_body ←
        do_request net method_post (text "/api/v1/cron-workflows/" ++ ns)
          (some (cron_body (record { cron_workflow = m; namespace = [] })))
    decode "unmarshal response: %w" net.unmarshal_cron resp_body

  unfoldable pub create_cron_workflow : Result CronWorkflowModel → Text → Client CronWorkflowModel
  create_cron_workflow build namespace = do
    m ← lift (wrapping "build cron workflow: %w" [] build)
    create_cron_workflow_from_model m namespace
