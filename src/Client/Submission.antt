-- ===== src/Client/Submission.antt =====
-- A Workflow that is given to `CreateWorkflow` of client/client.go: from the builder to the server and
-- back.
use theo_forge.Prelude.{
  ◌<◌, Text, text, some, [], ◌++◌, is_empty, if◌then◌else◌, ok, wrapping, wrapping-eq-ok, ◌≡◌, refl,
  ◌↔◌, All,
}
use theo_forge.Units.Resources.{Floats}
use theo_forge.Config.Global.{GlobalConfig, resolve_config}
use theo_forge.Model.Workflows.{WorkflowModel}
use theo_forge.Workflow.Resource.{Workflow, build, get_namespace}
use theo_forge.Workflow.Building.{Builds, build_iff}
use theo_forge.Client.Names.{workflows_path}
use theo_forge.Client.Paths.{IsUnreserved, IsK8sName, workflows_path_iff}
use theo_forge.Client.Transport.{Net, workflow_body, Response}
use theo_forge.Effects.{and_then-ok, and_then-result}
use theo_forge.Client.Requests.{Session, lift, do_request}
use theo_forge.Client.Operations.{
  Buildable, or_default, create_workflow, create_workflow_from_model,
}
use theo_forge.Client.Answers.{IsAnswered, IsRead, do_request-ok_iff}

-- A Workflow is a Buildable.
abbrev pub buildable_of : Floats → GlobalConfig → Workflow → Buildable
buildable_of fl global w = record { build = build fl global w; get_namespace = get_namespace w }

module _ (net : Net) (fl : Floats) where
  -- The whole of a submission that succeeds.
  pub record IsSubmitted (global : GlobalConfig) (w : Workflow) (s : Session) (m : WorkflowModel)
      : Type 0 where
    pub model : WorkflowModel
    pub built : Builds fl (resolve_config global w.config) w model
    pub namespace : Text
    pub chosen : namespace ≡ (if is_empty w.namespace then s.service.namespace else w.namespace)
    pub valid : IsK8sName namespace
    pub resp : Response
    pub answered :
        IsAnswered net
          (text "POST")
          (text "/api/v1/workflows/" ++ namespace)
          (some (workflow_body (record { workflow = model; namespace = [] })))
          s
          resp
    pub accepted : resp.status_code < 400
    pub body : Text
    pub read : IsRead resp body
    pub decoded : net.unmarshal_workflow body ≡ ok m

module _ (net : Net) (keeps : (s : Text) → All IsUnreserved s → net.path_escape s ≡ s)
    (fl : Floats) where
  -- `CreateWorkflow` of a Workflow returns a model exactly if the workflow is built, its namespace, or
  -- else that of the service, is valid, the built model is posted to the workflows of that namespace and accepted, and
  -- the whole body of the response decodes to the model.
  pub create_workflow_iff :
      (global : GlobalConfig) (w : Workflow) (s : Session) (m : WorkflowModel)
      → ((create_workflow net (buildable_of fl global w) s).0 ≡ ok m)
        ↔ IsSubmitted net fl global w s m
  unfolding create_workflow create_workflow_from_model or_default get_namespace
  create_workflow_iff global w s m = (
    λ h.
        let (model, one, h1) =
          and_then-ok (lift (wrapping "build workflow: %w" [] (build fl global w)) s) _ h in
        let ns = if is_empty w.namespace then s.service.namespace else w.namespace in
        let (path, two, h2) = and_then-ok (lift (workflows_path net.path_escape ns) s) _ h1 in
        let (valid, same) = (workflows_path_iff net.path_escape keeps ns path).0 two in
        let (body, three, h3) = and_then-ok (do_request net (text "POST") path _ s) _ h2 in
        let (resp, answered, accepted, read) =
          (do_request-ok_iff net (text "POST") path _ s body).0 three in
        record {
          model = model;
          built = (build_iff fl global w model).0 (wrapping-eq-ok _ [] (build fl global w) one);
          namespace = ns;
          chosen = refl;
          valid = valid;
          resp = resp;
          answered = rw (← same) answered;
          accepted = accepted;
          body = body;
          read = read;
          decoded = wrapping-eq-ok _ [] (net.unmarshal_workflow body) h3;
        },
    λ k.
        let path : Text = text "/api/v1/workflows/" ++ k.namespace in
        let path_made : workflows_path net.path_escape
              (if is_empty w.namespace then s.service.namespace else w.namespace)
            ≡ ok path =
          rw (← k.chosen)
            ((workflows_path_iff net.path_escape keeps k.namespace path).1 (k.valid, refl)) in
        let answer =
          (do_request-ok_iff net (text "POST") path _ s k.body).1
            (k.resp, k.answered, k.accepted, k.read) in
        rw ((build_iff fl global w k.model).1 k.built, path_made)
          (and_then-result (do_request net (text "POST") path _ s) _ (ok m)
            (k.body, answer, λ t. rw k.decoded refl)),
  )
