-- ===== src/Workflow/Scheduling.antt =====
-- When `Build` of a CronWorkflow in workflow_template.go succeeds, and with what.
use theo_forge.Prelude.{
  ◌≤◌, false, ◌&&◌, Text, String, Option, List, [], ◌∷◌, is_empty, length, ok, ◌≡◌, ◌≢◌, refl, ◌↔◌,
  ◌⊎◌, inl, inr, arith, >>=-eq-ok,
}
use mathlib.Core.List.{Forall₂}
use theo_forge.Model.Artifacts.{ArgumentsModel}
use theo_forge.Model.Volumes.{VolumeModel}
use theo_forge.Model.Templates.{TemplateModel}
use theo_forge.Model.Workflows.{CronWorkflowModel}
use theo_forge.Units.Resources.{Floats}
use theo_forge.Config.Global.{GlobalConfig, resolve_config, dispatch_cron_workflow_hooks}
use theo_forge.Workflow.Pipeline.{build_template_models}
use theo_forge.Workflow.Checked.{IsTurn, build_template_models_iff}
use theo_forge.Workflow.Resource.{build_volumes}
use theo_forge.Workflow.Building.{volumes_iff}
use theo_forge.Config.Global.{run_hooks}
use theo_forge.Config.Passing.{Through, run_hooks_iff}
use theo_forge.Workflow.Arguments.{IsArguments, parameter_arguments_iff}
use theo_forge.Workflow.CronFilled.{
  CronFilled, cron_workflow_model-CronFilled, CronFilled-cron_workflow_model,
}
use theo_forge.Workflow.Templates.{
  CronWorkflow, check_name, validate_cron_workflow, parameter_arguments, cron_workflow_model,
  build_cron_workflow,
}

-- A name that is there and fits.
pub record IsNamed (name : Text) : Type 0 where
  pub there : is_empty name ≡ false
  pub fits : length name ≤ 63

check_name_iff :
    (missing long : String) (name : Text) → (check_name missing long name ≡ ok tt) ↔ IsNamed name
unfolding check_name
check_name_iff missing long name = (
  λ h. record { there = ground (arith, h); fits = ground (arith, h) },
  λ n. ground (arith, n.there, n.fits),
)

scheduled_iff :
    {A : Type 0} (a : Text) (bs : List A)
    → ((is_empty a && is_empty bs) ≡ false) ↔ ((a ≢ []) ⊎ (bs ≢ []))
scheduled_iff [] [] =
    (λ h. ground (arith, h), λ h. elim h [ inl n ↦ elim (n refl) [ ] | inr n ↦ elim (n refl) [ ] ])
scheduled_iff (c ∷ a) bs = (λ h. inl (λ q. ground (arith, q)), λ h. refl)
scheduled_iff [] (b ∷ bs) = (λ h. inr (λ q. ground (arith, q)), λ h. refl)

-- A cron workflow that can be submitted.
pub record IsScheduled (cw : CronWorkflow) : Type 0 where
  pub named : IsNamed cw.name
  pub scheduled : (cw.schedule ≢ []) ⊎ (cw.schedules ≢ [])

validate_cron_workflow_iff :
    (cw : CronWorkflow) → (validate_cron_workflow cw ≡ ok tt) ↔ IsScheduled cw
unfolding validate_cron_workflow
validate_cron_workflow_iff cw = (
  λ h.
      let (_, one, two) = >>=-eq-ok (check_name _ _ cw.name) _ h in
      record {
        named = (check_name_iff _ _ cw.name).0 one;
        scheduled = (scheduled_iff cw.schedule cw.schedules).0 (ground (arith, two));
      },
  λ s.
      rw
        (
          (check_name_iff _ _ cw.name).1 s.named,
          (scheduled_iff cw.schedule cw.schedules).1 s.scheduled,
        )
        refl,
)

module _ (fl : Floats) where
  -- A build that succeeds: the name and the schedule are in order, every part is built, and the model is
  -- what the hooks make of these.
  pub record BuildsCron (cfg : GlobalConfig) (cw : CronWorkflow) (m : CronWorkflowModel)
      : Type 0 where
    pub valid : IsScheduled cw
    pub templates : List TemplateModel
    pub arguments : Option ArgumentsModel
    pub volumes : List VolumeModel
    pub turns : Forall₂ (IsTurn fl cfg) cw.templates templates
    pub arguments_built : IsArguments cw.arguments [] arguments
    pub volumes_built : Forall₂ (λ v m. v.build_volume ≡ ok m) cw.volumes volumes
    pub model : CronWorkflowModel
    pub filled : CronFilled cw templates arguments volumes model
    pub passed : Through cfg.cron_workflow_hooks model m

  -- `Build` of a CronWorkflow gives a model exactly if its name has 1 to 63 bytes, it has a schedule, and
  -- its templates, arguments and volumes are built, in order; then it is what the hooks, one after the other, make
  -- of the model that has these parts, the fields of the cron workflow, and a version if it is missing.
  pub build_cron_workflow_iff :
      (global : GlobalConfig) (cw : CronWorkflow) (m : CronWorkflowModel)
      → (build_cron_workflow fl global cw ≡ ok m)
        ↔ BuildsCron (resolve_config global cw.config) cw m
  unfolding build_cron_workflow dispatch_cron_workflow_hooks
  build_cron_workflow_iff global cw m =
      let cfg = resolve_config global cw.config in
      (
        λ h.
            let (_, v, h1) = >>=-eq-ok (validate_cron_workflow cw) _ h in
            let (ts, t, h2) = >>=-eq-ok (build_template_models fl cfg cw.templates) _ h1 in
            let (args, a, h3) = >>=-eq-ok (parameter_arguments cw.arguments) _ h2 in
            let (vols, k, h4) = >>=-eq-ok (build_volumes cw.volumes) _ h3 in
            record {
              valid = (validate_cron_workflow_iff cw).0 v;
              templates = ts;
              arguments = args;
              volumes = vols;
              turns = (build_template_models_iff fl cfg cw.templates ts).0 t;
              arguments_built = (parameter_arguments_iff cw.arguments args).0 a;
              volumes_built = (volumes_iff cw.volumes vols).0 k;
              model = cron_workflow_model cw ts args vols;
              filled = cron_workflow_model-CronFilled cw ts args vols;
              passed = (run_hooks_iff cfg.cron_workflow_hooks _ m).0 (
                  let same : run_hooks cfg.cron_workflow_hooks (cron_workflow_model cw ts args vols)
                      ≡ m =
                    cc in
                  same);
            },
        λ b.
            rw
              (
                (validate_cron_workflow_iff cw).1 b.valid,
                (build_template_models_iff fl cfg cw.templates b.templates).1 b.turns,
                (parameter_arguments_iff cw.arguments b.arguments).1 b.arguments_built,
                (volumes_iff cw.volumes b.volumes).1 b.volumes_built,
                CronFilled-cron_workflow_model cw b.templates b.arguments b.volumes b.model
                    b.filled,
                (run_hooks_iff cfg.cron_workflow_hooks b.model m).1 b.passed,
              )
              refl,
      )
