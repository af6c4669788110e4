-- ===== src/Client/Silence.antt =====
-- The loggers of client/logger.go, over whole sequences of calls: whatever they do, and if they panic,
-- the same requests are sent.
use theo_forge.Prelude.{
  Text, Option, none, List, [], ◌∷◌, Result, ok, wrapping, is_empty, if◌then◌else◌, ◌≡◌, refl, ap,
}
use theo_forge.Model.Workflows.{WorkflowModel, WorkflowTemplateModel, CronWorkflowModel}
use theo_forge.Client.Names.{
  validate_k8s_namespace, workflows_path, workflow_path, workflow_action_path,
}
use theo_forge.Client.Transport.{Net, RequestBody}
use theo_forge.Client.Requests.{Session, lift, ◌>>=◌, do_request}
use theo_forge.Client.Operations.{
  or_default, create_workflow_from_model, get_workflow, delete_workflow, list_workflows,
  lint_workflow_from_model, create_workflow, lint_workflow, lifecycle_op, stop_workflow,
  terminate_workflow, suspend_workflow, resume_workflow, get_info, get_version,
  create_workflow_template_from_model, create_workflow_template, create_cron_workflow_from_model,
  create_cron_workflow,
}
use theo_forge.Client.Calls.{
  Call, create_model, lint_model, create, lint, get, delete, stop, terminate, suspend, resume,
  list_all, create_template_model, create_template, create_cron_model, create_cron, info_of,
  version_of, run, after, all_returned, after_all,
}
use theo_forge.Client.Quiet.{
  quiet, IsQuiet, lift-IsQuiet, lift->>=-IsQuiet, >>=-IsQuiet, do_request-IsQuiet,
}

or_default-IsQuiet : (namespace : Text) → IsQuiet (or_default namespace)
unfolding or_default
or_default-IsQuiet namespace = record {
  returned =
      λ s t h. ap (λ q. ok (if is_empty namespace then q.service.namespace else namespace)) h;
  left = λ s t h. h;
}

module _ (net : Net) where
  -- A request, and what is decoded of its response.
  exchange-IsQuiet :
      {A : Type 0} (method path : Text) (body : Option RequestBody) (f : Text → Result A)
      → IsQuiet (do_request net method path body >>= λ out. lift (f out))
  exchange-IsQuiet method path body f =
      >>=-IsQuiet (do_request net method path body) _ (do_request-IsQuiet net method path body)
        (λ out. lift-IsQuiet (f out))

  create_model-IsQuiet :
      (m : WorkflowModel) (ns : Text) → IsQuiet (create_workflow_from_model net m ns)
  unfolding create_workflow_from_model
  create_model-IsQuiet m ns = >>=-IsQuiet (or_default ns) _ (or_default-IsQuiet ns) λ chosen.
      lift->>=-IsQuiet (workflows_path net.path_escape chosen) _ λ path. exchange-IsQuiet _ _ _ _

  lint_model-IsQuiet : (m : WorkflowModel) (ns : Text) → IsQuiet (lint_workflow_from_model net m ns)
  unfolding lint_workflow_from_model
  lint_model-IsQuiet m ns = >>=-IsQuiet (or_default ns) _ (or_default-IsQuiet ns) λ chosen.
      lift->>=-IsQuiet (workflows_path net.path_escape chosen) _ λ path. exchange-IsQuiet _ _ _ _

  get-IsQuiet : (name ns : Text) → IsQuiet (get_workflow net name ns)
  unfolding get_workflow
  get-IsQuiet name ns = >>=-IsQuiet (or_default ns) _ (or_default-IsQuiet ns) λ chosen.
      lift->>=-IsQuiet (workflow_path net.path_escape chosen name) _
        λ path. exchange-IsQuiet _ _ _ _

  delete-IsQuiet : (name ns : Text) → IsQuiet (delete_workflow net name ns)
  unfolding delete_workflow
  delete-IsQuiet name ns = >>=-IsQuiet (or_default ns) _ (or_default-IsQuiet ns) λ chosen.
      lift->>=-IsQuiet (workflow_path net.path_escape chosen name) _
        λ path. exchange-IsQuiet _ _ _ _

  list_all-IsQuiet : (ns : Text) → IsQuiet (list_workflows net ns)
  unfolding list_workflows
  list_all-IsQuiet ns = >>=-IsQuiet (or_default ns) _ (or_default-IsQuiet ns) λ chosen.
      lift->>=-IsQuiet (workflows_path net.path_escape chosen) _ λ path.
        >>=-IsQuiet (do_request net _ path none) _ (do_request-IsQuiet net _ path none) λ out.
          lift->>=-IsQuiet (wrapping "unmarshal response: %w" [] (net.unmarshal_list out)) _
            (λ result. lift-IsQuiet (ok result.items))

  lifecycle-IsQuiet : (name ns action : Text) → IsQuiet (lifecycle_op net name ns action)
  unfolding lifecycle_op
  lifecycle-IsQuiet name ns action = >>=-IsQuiet (or_default ns) _ (or_default-IsQuiet ns) λ chosen.
      lift->>=-IsQuiet (workflow_action_path net.path_escape chosen name action) _
        (λ path. exchange-IsQuiet _ _ _ _)

  create_template_model-IsQuiet :
      (m : WorkflowTemplateModel) (ns : Text)
      → IsQuiet (create_workflow_template_from_model net m ns)
  unfolding create_workflow_template_from_model
  create_template_model-IsQuiet m ns =
      >>=-IsQuiet (or_default ns) _ (or_default-IsQuiet ns) λ chosen.
        lift->>=-IsQuiet (validate_k8s_namespace chosen) _ λ done. exchange-IsQuiet _ _ _ _

  create_cron_model-IsQuiet :
      (m : CronWorkflowModel) (ns : Text) → IsQuiet (create_cron_workflow_from_model net m ns)
  unfolding create_cron_workflow_from_model
  create_cron_model-IsQuiet m ns =
      >>=-IsQuiet (or_default ns) _ (or_default-IsQuiet ns) λ chosen.
        lift->>=-IsQuiet (validate_k8s_namespace chosen) _ λ done. exchange-IsQuiet _ _ _ _

  run-IsQuiet : (c : Call) → IsQuiet (run net c)
  unfolding create_workflow lint_workflow create_workflow_template create_cron_workflow
      stop_workflow terminate_workflow suspend_workflow resume_workflow get_info get_version
  run-IsQuiet (create_model m ns) = (create_model-IsQuiet m ns)
  run-IsQuiet (lint_model m ns) = (lint_model-IsQuiet m ns)
  run-IsQuiet (create b) =
      (lift->>=-IsQuiet (wrapping "build workflow: %w" [] b.build) _
        (λ m. create_model-IsQuiet m _))
  run-IsQuiet (lint b) =
      (lift->>=-IsQuiet (wrapping "build workflow: %w" [] b.build) _ (λ m. lint_model-IsQuiet m _))
  run-IsQuiet (get name ns) = (get-IsQuiet name ns)
  run-IsQuiet (delete name ns) = (delete-IsQuiet name ns)
  run-IsQuiet (stop name ns) = (lifecycle-IsQuiet name ns _)
  run-IsQuiet (terminate name ns) = (lifecycle-IsQuiet name ns _)
  run-IsQuiet (suspend name ns) = (lifecycle-IsQuiet name ns _)
  run-IsQuiet (resume name ns) = (lifecycle-IsQuiet name ns _)
  run-IsQuiet (list_all ns) = (list_all-IsQuiet ns)
  run-IsQuiet (create_template_model m ns) = (create_template_model-IsQuiet m ns)
  run-IsQuiet (create_template b ns) =
      (lift->>=-IsQuiet (wrapping "build workflow template: %w" [] b) _
        (λ m. create_template_model-IsQuiet m ns))
  run-IsQuiet (create_cron_model m ns) = (create_cron_model-IsQuiet m ns)
  run-IsQuiet (create_cron b ns) =
      (lift->>=-IsQuiet (wrapping "build cron workflow: %w" [] b) _
        (λ m. create_cron_model-IsQuiet m ns))
  run-IsQuiet info_of = (exchange-IsQuiet _ _ _ _)
  run-IsQuiet version_of = (exchange-IsQuiet _ _ _ _)

  -- Two services that differ only in their loggers, be these nil, silent or panicking, return the same in the same
  -- calls, errors included, send the same requests, and are left with the same HTTP client.
  pub after_all-quiet :
      (cs : List Call) (s t : Session)
      → quiet s ≡ quiet t
      → (all_returned net cs s ≡ all_returned net cs t)
        × (quiet (after_all net cs s) ≡ quiet (after_all net cs t))
  after_all-quiet [] s t h = (refl, h)
  after_all-quiet (c ∷ cs) s t h =
      let q = run-IsQuiet c in
      let (rest, left) = after_all-quiet cs (after net c s) (after net c t) (q.left s t h) in
      (rw (q.returned s t h, rest) refl, left)
