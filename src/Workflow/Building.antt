-- ===== src/Workflow/Building.antt =====
-- When `Build` of workflow.go succeeds, and what the resource is then; `GetParameter`.
use theo_forge.Prelude.{
  Text, Option, none, some, List, [], ◌∷◌, ◌==◌, ==_iff, ok, err, Error, errorf, wrap, wrapping,
  ◌≡◌, ◌≢◌, refl, ◌↔◌, ◌⊎◌, inl, inr, arith, All, Bool-cases, >>=-eq-ok, wrapping-eq-ok,
  traverse_sound, traverse_complete, ap, ◌++◌, Option-cases,
}
use mathlib.Core.List.{Forall₂}
use theo_forge.Model.Artifacts.{ArgumentsModel}
use theo_forge.Model.Volumes.{VolumeModel, PvcModel}
use theo_forge.Model.Templates.{TemplateModel}
use theo_forge.Model.Workflows.{WorkflowModel}
use theo_forge.Build.Interfaces.{Templatable, VolumeBuilder}
use theo_forge.Build.Parameters.{Parameter}
use theo_forge.Build.Volumes.{PvcVolume, build_pvc}
use theo_forge.Units.Resources.{Floats}
use theo_forge.Config.Global.{GlobalConfig, resolve_config, dispatch_workflow_hooks}
use theo_forge.Config.Named.{dispatch_named_workflow_hooks}
use theo_forge.Config.Passing.{Passes, run_hooks-dispatch_iff, Passes-none}
use theo_forge.Workflow.Arguments.{IsArguments, build_workflow_arguments_iff}
use theo_forge.Workflow.Filled.{
  WorkflowFilled, workflow_model-WorkflowFilled, WorkflowFilled-workflow_model,
}
use theo_forge.Workflow.Pipeline.{build_template_models}
use theo_forge.Workflow.Checked.{
  IsTurn, IsBuilt, HasNoTemplateHooks, build_template_models_iff, Forall₂-map,
}
use theo_forge.Workflow.Naming.{IsValid, validate_iff, Chooses}
use theo_forge.Workflow.Resource.{
  Workflow, validate, build, build_workflow_arguments, build_volumes, build_volume_claim_templates,
  workflow_model, hooked_workflow, effective_name, find_parameter, get_parameter,
}

pub volumes_iff :
    (vs : List VolumeBuilder) (ms : List VolumeModel)
    → (build_volumes vs ≡ ok ms) ↔ Forall₂ (λ v m. v.build_volume ≡ ok m) vs ms
unfolding build_volumes
volumes_iff vs ms = (
  λ h.
      Forall₂-map (λ v m. wrapping-eq-ok "volume: %w" [] v.build_volume)
        (traverse_sound (λ v. wrapping "volume: %w" [] v.build_volume) vs ms h),
  λ all.
      traverse_complete (λ v. wrapping "volume: %w" [] v.build_volume)
        (Forall₂-map (λ v m e. rw e refl) all),
)

claims_iff :
    (vs : List PvcVolume) (ms : List PvcModel)
    → (build_volume_claim_templates vs ≡ ok ms) ↔ Forall₂ (λ v m. build_pvc v ≡ ok m) vs ms
unfolding build_volume_claim_templates
claims_iff vs ms = (
  λ h.
      Forall₂-map (λ v m. wrapping-eq-ok "volume claim template: %w" [] (build_pvc v))
        (traverse_sound (λ v. wrapping "volume claim template: %w" [] (build_pvc v)) vs ms h),
  λ all.
      traverse_complete (λ v. wrapping "volume claim template: %w" [] (build_pvc v))
        (Forall₂-map (λ v m e. rw e refl) all),
)

-- No hook is registered for templates or workflows.
pub record HasNoHooks (cfg : GlobalConfig) : Type 0 where
  pub of_templates : HasNoTemplateHooks cfg
  pub anonymous : cfg.workflow_hooks ≡ []
  pub named : cfg.named_workflow_hooks ≡ []

hooked_workflow_iff :
    (cfg : GlobalConfig) (w : Workflow) (m n : WorkflowModel)
    → (hooked_workflow cfg w m ≡ ok n) ↔ Passes cfg.workflow_hooks cfg.named_workflow_hooks m n
unfolding hooked_workflow dispatch_named_workflow_hooks dispatch_workflow_hooks
hooked_workflow_iff cfg w m n =
    run_hooks-dispatch_iff "workflow hook %q: %w" cfg.workflow_hooks cfg.named_workflow_hooks
      (λ e. wrap "workflow %q: %w" (effective_name w ∷ []) e) m n

module _ (fl : Floats) where
  -- A build that succeeds: every part does, and the workflow hooks pass the model on.
  pub record Builds (cfg : GlobalConfig) (w : Workflow) (m : WorkflowModel) : Type 0 where
    pub valid : IsValid w
    pub templates : List TemplateModel
    pub arguments : Option ArgumentsModel
    pub volumes : List VolumeModel
    pub claims : List PvcModel
    pub turns : Forall₂ (IsTurn fl cfg) w.templates templates
    pub arguments_built : IsArguments w.arguments w.argument_artifacts arguments
    pub volumes_built : Forall₂ (λ v m. v.build_volume ≡ ok m) w.volumes volumes
    pub claims_built : Forall₂ (λ v m. build_pvc v ≡ ok m) w.volume_claim_templates claims
    pub model : WorkflowModel
    pub filled : WorkflowFilled w templates arguments volumes claims model
    pub passed : Passes cfg.workflow_hooks cfg.named_workflow_hooks model m

  -- `Build` gives a model exactly if the workflow is valid, every template, argument, volume and
  -- claim is built, in order; then it is what the workflow hooks, those with names last and without an
  -- error, make of the model that has these parts, the fields of the workflow, and a version, a kind and
  -- an affinity where they are missing.
  pub build_iff :
      (global : GlobalConfig) (w : Workflow) (m : WorkflowModel)
      → (build fl global w ≡ ok m) ↔ Builds (resolve_config global w.config) w m
  unfolding build
  build_iff global w m =
      let cfg = resolve_config global w.config in
      (
        λ h.
            let (_, v, h1) = >>=-eq-ok (validate w) _ h in
            let (ts, t, h2) = >>=-eq-ok (build_template_models fl cfg w.templates) _ h1 in
            let (args, a, h3) = >>=-eq-ok (build_workflow_arguments w) _ h2 in
            let (vols, k, h4) = >>=-eq-ok (build_volumes w.volumes) _ h3 in
            let (pvcs, p, h5) =
              >>=-eq-ok (build_volume_claim_templates w.volume_claim_templates) _ h4 in
            record {
              valid = (validate_iff w).0 v;
              templates = ts;
              arguments = args;
              volumes = vols;
              claims = pvcs;
              turns = (build_template_models_iff fl cfg w.templates ts).0 t;
              arguments_built = (build_workflow_arguments_iff w args).0 a;
              volumes_built = (volumes_iff w.volumes vols).0 k;
              claims_built = (claims_iff w.volume_claim_templates pvcs).0 p;
              model = workflow_model w ts args vols pvcs;
              filled = workflow_model-WorkflowFilled w ts args vols pvcs ((validate_iff w).0 v);
              passed = (hooked_workflow_iff cfg w _ m).0 h5;
            },
        λ b.
            rw
              (
                (validate_iff w).1 b.valid,
                (build_template_models_iff fl cfg w.templates b.templates).1 b.turns,
                (build_workflow_arguments_iff w b.arguments).1 b.arguments_built,
                (volumes_iff w.volumes b.volumes).1 b.volumes_built,
                (claims_iff w.volume_claim_templates b.claims).1 b.claims_built,
                WorkflowFilled-workflow_model w b.templates b.arguments b.volumes b.claims b.model
                    b.valid b.filled,
              )
              ((hooked_workflow_iff cfg w b.model m).1 b.passed),
      )

  built :
      (cfg : GlobalConfig) {ts : List Templatable} {ms : List TemplateModel}
      → HasNoTemplateHooks cfg
      → Forall₂ (IsTurn fl cfg) ts ms
      → All (IsBuilt fl) ms
  built cfg h Forall₂.nil = tt
  built cfg h (Forall₂.cons {b = m} t more) =
      let p : Passes [] [] t.filled m = rw (h.anonymous, h.named) at t.passed in
      (rw (← Passes-none t.filled m p) t.checked, built cfg h more)

  -- If no hook is registered and `Build` gives a model, each template of the model has an image and
  -- allowed resources for its container and its script, and the affinity is the one that the
  -- precedence chooses.
  pub build-unhooked :
      (global : GlobalConfig) (w : Workflow) (m : WorkflowModel)
      → HasNoHooks (resolve_config global w.config)
      → build fl global w ≡ ok m
      → All (IsBuilt fl) m.spec.templates × Chooses w m.spec.affinity
  unfolding workflow_model
  build-unhooked global w m none_registered h =
      let cfg = resolve_config global w.config in
      let b = (build_iff global w m).0 h in
      let p : Passes [] [] b.model m =
        rw (none_registered.anonymous, none_registered.named) at b.passed in
      rw (← Passes-none b.model m p, b.filled.fields)
        (built cfg none_registered.of_templates b.turns, b.filled.with_affinity)

-- `GetParameter` finds the first argument of that name.
pub record IsFirst (name : Text) (ps : List Parameter) (p : Parameter) : Type 0 where
  pub before : List Parameter
  pub after : List Parameter
  pub split : ps ≡ before ++ p ∷ after
  pub same : p.name ≡ name
  pub others : All (λ q. q.name ≢ name) before

find_parameter-IsFirst :
    (name : Text) (ps : List Parameter) (p : Parameter)
    → find_parameter name ps ≡ some p
    → IsFirst name ps p
unfolding find_parameter
find_parameter-IsFirst name [] p h = ground (arith, h)
find_parameter-IsFirst name (q ∷ ps) p h = elim (Bool-cases (q.name == name)) [
  | inl e ↦
      let same : q ≡ p = cc (rw e at h) in
      record {
        before = [];
        after = ps;
        split = ap (λ x. x ∷ ps) same;
        same = rw (← same) ((==_iff q.name name).0 e);
        others = tt;
      }
  | inr e ↦
      let r = find_parameter-IsFirst name ps p (rw e at h) in
      record {
        before = q ∷ r.before;
        after = r.after;
        split = ap (λ l. q ∷ l) r.split;
        same = r.same;
        others = (λ k. ground (arith, e, (==_iff q.name name).1 k), r.others);
      }
]

find_parameter-none :
    (name : Text) (ps : List Parameter)
    → find_parameter name ps ≡ none
    → All (λ q. q.name ≢ name) ps
unfolding find_parameter
find_parameter-none name [] h = tt
find_parameter-none name (q ∷ ps) h = elim (Bool-cases (q.name == name)) [
  | inl e ↦ ground (arith, e, h)
  | inr e ↦
      (λ k. ground (arith, e, (==_iff q.name name).1 k), find_parameter-none name ps (rw e at h))
]

-- `GetParameter` returns the first argument of that name, or an error if no argument has it.
pub get_parameter_lem :
    (w : Workflow) (name : Text)
    → ((p : Parameter) × (get_parameter w name ≡ ok p) × IsFirst name w.arguments p)
      ⊎ (((e : Error) × (get_parameter w name ≡ err e)) × All (λ q. q.name ≢ name) w.arguments)
unfolding get_parameter
get_parameter_lem w name = elim (Option-cases (find_parameter name w.arguments)) [
  | inl e ↦ inr (
    (errorf "parameter %q not found in workflow arguments" (name ∷ []), rw (e, get_parameter) refl),
    find_parameter-none name w.arguments e,
  )
  | inr (p, e) ↦ inl (p, rw (e, get_parameter) refl, find_parameter-IsFirst name w.arguments p e)
]
