-- ===== src/Client/Calls.antt =====
-- The calls that a program makes of a service, each an exchange with the server or nothing.
use theo_forge.Prelude.{Text, List, [], ◌∷◌, Result, ok, err, refl, wrapping, ◌≡◌, All}
use theo_forge.Model.Workflows.{WorkflowModel, WorkflowTemplateModel, CronWorkflowModel}
use theo_forge.Client.Names.{
  validate_k8s_namespace, workflows_path, workflow_path, workflow_action_path,
}
use theo_forge.Client.Paths.{
  IsUnreserved, validate_k8s_namespace_iff, workflow_path_iff, workflows_path_iff,
  workflow_action_path-eq-ok,
}
use theo_forge.Client.Transport.{Net, ListWorkflowsResponse}
use theo_forge.Client.Requests.{Client, Session, lift, ◌>>=◌, do_request}
use theo_forge.Client.Transport.{ArgoServerInfo, ArgoServerVersion}
use theo_forge.Client.Operations.{
  Buildable, or_default, create_workflow_from_model, get_workflow, delete_workflow, list_workflows,
  lint_workflow_from_model, create_workflow, lint_workflow, lifecycle_op, stop_workflow,
  terminate_workflow, suspend_workflow, resume_workflow, get_info, get_version,
  create_workflow_template_from_model, create_workflow_template, create_cron_workflow_from_model,
  create_cron_workflow,
}
use theo_forge.Client.Exchanges.{
  IsAction, stopping, terminating, suspending, resuming, listing, creation, linting, fetching,
  removal, lifecycle, template_creation, cron_creation, info, version, Step, lift-Step,
  then_lift-Step, then_kept-Step, do_request-Step,
}

pub data Call : Type 0 where
  create_model lint_model : WorkflowModel → Text → Call
  create lint : Buildable → Call
  get delete stop terminate suspend resume : Text → Text → Call
  list_all : Text → Call
  create_template_model : WorkflowTemplateModel → Text → Call
  create_template : Result WorkflowTemplateModel → Text → Call
  create_cron_model : CronWorkflowModel → Text → Call
  create_cron : Result CronWorkflowModel → Text → Call
  info_of version_of : Call

-- What a call returns, if it does not fail.
abbrev pub Returned : Call → Type 0
Returned (create_model m ns) = WorkflowModel
Returned (lint_model m ns) = WorkflowModel
Returned (create b) = WorkflowModel
Returned (lint b) = WorkflowModel
Returned (get name ns) = WorkflowModel
Returned (list_all ns) = List WorkflowModel
Returned (create_template_model m ns) = WorkflowTemplateModel
Returned (create_template b ns) = WorkflowTemplateModel
Returned (create_cron_model m ns) = CronWorkflowModel
Returned (create_cron b ns) = CronWorkflowModel
Returned info_of = ArgoServerInfo
Returned version_of = ArgoServerVersion
Returned _ = Unit

-- What the calls return, one after the other, errors included.
abbrev pub AllReturned : List Call → Type 0
AllReturned [] = Unit
AllReturned (c ∷ cs) = Result (Returned c) × AllReturned cs

module _ (net : Net) where
  abbrev pub run : (c : Call) → Client (Returned c)
  run (create_model m ns) = create_workflow_from_model net m ns
  run (lint_model m ns) = lint_workflow_from_model net m ns
  run (create b) = create_workflow net b
  run (lint b) = lint_workflow net b
  run (get name ns) = get_workflow net name ns
  run (delete name ns) = delete_workflow net name ns
  run (stop name ns) = stop_workflow net name ns
  run (terminate name ns) = terminate_workflow net name ns
  run (suspend name ns) = suspend_workflow net name ns
  run (resume name ns) = resume_workflow net name ns
  run (list_all ns) = list_workflows net ns
  run (create_template_model m ns) = create_workflow_template_from_model net m ns
  run (create_template b ns) = create_workflow_template net b ns
  run (create_cron_model m ns) = create_cron_workflow_from_model net m ns
  run (create_cron b ns) = create_cron_workflow net b ns
  run info_of = get_info net
  run version_of = get_version net

  -- The state after a call, whatever it returns.
  abbrev pub after : Call → Session → Session
  after c s = (run c s).1

  abbrev pub after_all : List Call → Session → Session
  after_all [] s = s
  after_all (c ∷ cs) s = after_all cs (after c s)

  abbrev pub all_returned : (cs : List Call) → Session → AllReturned cs
  all_returned [] s = tt
  all_returned (c ∷ cs) s = ((run c s).0, all_returned cs (after c s))

module _ (net : Net) (keeps : (s : Text) → All IsUnreserved s → net.path_escape s ≡ s) where
  create_model-Step :
      (m : WorkflowModel) (ns : Text) (s : Session)
      → Step net s (create_workflow_from_model net m ns s).1
  unfolding create_workflow_from_model or_default
  create_model-Step m ns s = lift-Step net (workflows_path net.path_escape _) _ s λ path e.
      let (a, same) = (workflows_path_iff net.path_escape keeps _ path).0 e in
      then_lift-Step net (do_request net _ _ _) _ s
        (do_request-Step net _ _ _ s (rw same (creation a)))

  lint_model-Step :
      (m : WorkflowModel) (ns : Text) (s : Session)
      → Step net s (lint_workflow_from_model net m ns s).1
  unfolding lint_workflow_from_model or_default
  lint_model-Step m ns s = lift-Step net (workflows_path net.path_escape _) _ s λ path e.
      let (a, same) = (workflows_path_iff net.path_escape keeps _ path).0 e in
      then_lift-Step net (do_request net _ _ _) _ s
        (do_request-Step net _ _ _ s (rw same (linting a)))

  listed :
      (r : Result ListWorkflowsResponse) (t : Session)
      → ((lift r >>= λ result. lift (ok result.items)) t).1 ≡ t
  listed (ok result) t = refl
  listed (err e) t = refl

  list_all-Step : (ns : Text) (s : Session) → Step net s (list_workflows net ns s).1
  unfolding list_workflows or_default
  list_all-Step ns s = lift-Step net (workflows_path net.path_escape _) _ s λ path e.
      let (a, same) = (workflows_path_iff net.path_escape keeps _ path).0 e in
      then_kept-Step net (do_request net _ _ _) _ s
        (λ body t. listed (wrapping "unmarshal response: %w" [] (net.unmarshal_list body)) t)
        (do_request-Step net _ _ _ s (rw same (listing a)))

  get-Step : (name ns : Text) (s : Session) → Step net s (get_workflow net name ns s).1
  unfolding get_workflow or_default
  get-Step name ns s = lift-Step net (workflow_path net.path_escape _ name) _ s λ path e.
      let (a, b, same) = (workflow_path_iff net.path_escape keeps _ name path).0 e in
      then_lift-Step net (do_request net _ _ _) _ s
        (do_request-Step net _ _ _ s (rw same (fetching a b)))

  delete-Step : (name ns : Text) (s : Session) → Step net s (delete_workflow net name ns s).1
  unfolding delete_workflow or_default
  delete-Step name ns s = lift-Step net (workflow_path net.path_escape _ name) _ s λ path e.
      let (a, b, same) = (workflow_path_iff net.path_escape keeps _ name path).0 e in
      then_lift-Step net (do_request net _ _ _) _ s
        (do_request-Step net _ _ _ s (rw same (removal a b)))

  lifecycle-Step :
      (name ns : Text) {action : Text} (s : Session)
      → IsAction action
      → Step net s (lifecycle_op net name ns action s).1
  unfolding lifecycle_op or_default
  lifecycle-Step name ns {action} s act =
      lift-Step net (workflow_action_path net.path_escape _ name action) _ s λ path e.
        let (a, b, same) = workflow_action_path-eq-ok net.path_escape keeps _ name action path e in
        then_lift-Step net (do_request net _ _ _) _ s
          (do_request-Step net _ _ _ s (rw same (lifecycle act a b)))

  create_template_model-Step :
      (m : WorkflowTemplateModel) (ns : Text) (s : Session)
      → Step net s (create_workflow_template_from_model net m ns s).1
  unfolding create_workflow_template_from_model or_default
  create_template_model-Step m ns s = lift-Step net (validate_k8s_namespace _) _ s λ done e.
      then_lift-Step net (do_request net _ _ _) _ s
        (do_request-Step net _ _ _ s (template_creation ((validate_k8s_namespace_iff _).0 e)))

  create_cron_model-Step :
      (m : CronWorkflowModel) (ns : Text) (s : Session)
      → Step net s (create_cron_workflow_from_model net m ns s).1
  unfolding create_cron_workflow_from_model or_default
  create_cron_model-Step m ns s = lift-Step net (validate_k8s_namespace _) _ s λ done e.
      then_lift-Step net (do_request net _ _ _) _ s
        (do_request-Step net _ _ _ s (cron_creation ((validate_k8s_namespace_iff _).0 e)))

  -- Every call of a service leaves its state as it is, or makes one exchange with an endpoint.
  pub after-Step : (c : Call) (s : Session) → Step net s (after net c s)
  unfolding create_workflow lint_workflow create_workflow_template create_cron_workflow
      stop_workflow terminate_workflow suspend_workflow resume_workflow get_info get_version
  after-Step (create_model m ns) s = create_model-Step m ns s
  after-Step (lint_model m ns) s = lint_model-Step m ns s
  after-Step (create b) s =
      lift-Step net (wrapping "build workflow: %w" [] b.build) _ s λ m e. create_model-Step m _ s
  after-Step (lint b) s =
      lift-Step net (wrapping "build workflow: %w" [] b.build) _ s λ m e. lint_model-Step m _ s
  after-Step (get name ns) s = get-Step name ns s
  after-Step (delete name ns) s = delete-Step name ns s
  after-Step (stop name ns) s = lifecycle-Step name ns s stopping
  after-Step (terminate name ns) s = lifecycle-Step name ns s terminating
  after-Step (suspend name ns) s = lifecycle-Step name ns s suspending
  after-Step (resume name ns) s = lifecycle-Step name ns s resuming
  after-Step (list_all ns) s = list_all-Step ns s
  after-Step (create_template_model m ns) s = create_template_model-Step m ns s
  after-Step (create_template b ns) s =
      lift-Step net (wrapping "build workflow template: %w" [] b) _ s
        λ m e. create_template_model-Step m ns s
  after-Step (create_cron_model m ns) s = create_cron_model-Step m ns s
  after-Step (create_cron b ns) s =
      lift-Step net (wrapping "build cron workflow: %w" [] b) _ s
        λ m e. create_cron_model-Step m ns s
  after-Step info_of s =
      then_lift-Step net (do_request net _ _ _) _ s (do_request-Step net _ _ _ s info)
  after-Step version_of s =
      then_lift-Step net (do_request net _ _ _) _ s (do_request-Step net _ _ _ s version)
