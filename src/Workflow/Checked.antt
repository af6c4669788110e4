-- ===== src/Workflow/Checked.antt =====
-- What buildTemplateModels guarantees of the templates it returns, and of the errors.
use theo_forge.Prelude.{
  false, Text, String, Option, none, some, List, [], ◌∷◌, is_empty, empty_image, Result, ok, err,
  wrapping, ◌>>◌, ◌≡◌, refl, ◌↔◌, arith, >>=-eq-ok, fail_if-eq-ok, wrapping-eq-ok, traverse_sound,
  traverse_complete,
}
use mathlib.Core.List.{Forall₂}
use theo_forge.Model.Basic.{ResourceRequirements}
use theo_forge.Model.Templates.{TemplateModel, fields}
use theo_forge.Model.Containers.{ContainerModel, ScriptModel}
use theo_forge.Build.Interfaces.{Templatable}
use theo_forge.Units.Resources.{Floats, resource_requirements}
use theo_forge.Units.Laws.{IsAllowed, resource_requirements_iff}
use theo_forge.Config.Global.{GlobalConfig, apply_template_defaults, dispatch_template_hooks}
use theo_forge.Config.Passing.{Passes, run_hooks-dispatch_iff}
use theo_forge.Config.Filling.{TemplateFilled, apply_template_defaults_iff}
use theo_forge.Config.Named.{dispatch_named_template_hooks}
use theo_forge.Workflow.Pipeline.{
  if_present, check_part, validate_built_template, hooked, build_template_model,
  build_template_models,
}

if_present_iff :
    {A : Type 0} {P : A → Type 0} (check : A → Result (Unit {0})) (o : Option A)
    → ((a : A) → (check a ≡ ok tt) ↔ P a)
    → (if_present check o ≡ ok tt) ↔ ((a : A) → o ≡ some a → P a)
unfolding if_present
if_present_iff check none each = (λ _ a q. ground (arith, q), λ _. refl)
if_present_iff {P} check (some b) each =
    (λ h a q. let same : b ≡ a = cc in rw (← same) ((each b).0 h), λ all. (each b).1 (all b refl))

then_iff : (m k : Result (Unit {0})) → ((m >> k) ≡ ok tt) ↔ ((m ≡ ok tt) × (k ≡ ok tt))
then_iff (ok tt) k = ground arith
then_iff (err e) k = ground arith

wrapping_iff :
    (format : String) (args : List Text) (m : Result (Unit {0}))
    → (wrapping format args m ≡ ok tt) ↔ (m ≡ ok tt)
wrapping_iff format args (ok tt) = ground arith
wrapping_iff format args (err e) = ground arith

pub Forall₂-map :
    {A B : Type 0} {R S : A → B → Type 0}
    → ((a : A) (b : B) → R a b → S a b)
    → {xs : List A} {ys : List B} → Forall₂ R xs ys
    → Forall₂ S xs ys
Forall₂-map f Forall₂.nil = Forall₂.nil
Forall₂-map f (Forall₂.cons r rs) = Forall₂.cons (f _ _ r) (Forall₂-map f rs)

-- No hook is registered for templates.
pub record HasNoTemplateHooks (cfg : GlobalConfig) : Type 0 where
  pub anonymous : cfg.template_hooks ≡ []
  pub named : cfg.named_template_hooks ≡ []

hooked_iff :
    (cfg : GlobalConfig) (m n : TemplateModel)
    → (hooked cfg m ≡ ok n) ↔ Passes cfg.template_hooks cfg.named_template_hooks m n
unfolding hooked dispatch_named_template_hooks dispatch_template_hooks
hooked_iff cfg m n =
    run_hooks-dispatch_iff "template hook %q: %w" cfg.template_hooks cfg.named_template_hooks
      (λ e. e) m n

module _ (fl : Floats) where
  -- An image, and quantities that are allowed where there are any.
  pub record IsRunnable (image : Text) (resources : Option ResourceRequirements) : Type 0 where
    pub has_image : is_empty image ≡ false
    pub allowed : (r : ResourceRequirements) → resources ≡ some r → IsAllowed fl r

  check_part_iff :
      (format : String) (image : Text) (resources : Option ResourceRequirements)
      → (check_part fl format image resources ≡ ok tt) ↔ IsRunnable image resources
  unfolding check_part
  check_part_iff format image resources =
      let each : (r : ResourceRequirements)
          → (wrapping format [] (resource_requirements fl r) ≡ ok tt) ↔ IsAllowed fl r =
        λ r.
          let w = wrapping_iff format [] (resource_requirements fl r) in
          let a = resource_requirements_iff fl r in (λ h. a.0 (w.0 h), λ p. w.1 (a.1 p)) in
      let present =
        if_present_iff (λ r. wrapping format [] (resource_requirements fl r)) resources each in
      (
        λ h.
            let (image_there, rest) = fail_if-eq-ok (is_empty image) empty_image _ h in
            record { has_image = image_there; allowed = present.0 rest },
        λ p. rw (p.has_image, present.1 p.allowed) refl,
      )

  -- A template whose container and script, where it has them, can run.
  pub record IsBuilt (t : TemplateModel) : Type 0 where
    pub container :
        (c : ContainerModel) → (fields t).container ≡ some c → IsRunnable c.image c.resources
    pub script : (s : ScriptModel) → (fields t).script ≡ some s → IsRunnable s.image s.resources

  -- A built template is accepted exactly if its container and its script, where it has them, have an
  -- image, and resources that are allowed where they have resources.
  pub validate_built_template_iff :
      (t : TemplateModel) → (validate_built_template fl t ≡ ok tt) ↔ IsBuilt t
  unfolding validate_built_template
  validate_built_template_iff t =
      let container =
        if_present_iff (λ c. check_part fl "container resources: %w" c.image c.resources)
          (fields t).container
          (λ c. check_part_iff "container resources: %w" c.image c.resources) in
      let script =
        if_present_iff (λ s. check_part fl "script resources: %w" s.image s.resources)
          (fields t).script (λ s. check_part_iff "script resources: %w" s.image s.resources) in
      let both =
        then_iff
          (if_present (λ c. check_part fl "container resources: %w" c.image c.resources)
            (fields t).container)
          (if_present (λ s. check_part fl "script resources: %w" s.image s.resources)
            (fields t).script) in
      (
        λ h.
            let (one, two) = both.0 h in
            record { container = container.0 one; script = script.0 two },
        λ b. both.1 (container.1 b.container, script.1 b.script),
      )

  -- What one turn of the loop has done for the model that it appends.
  pub record IsTurn (cfg : GlobalConfig) (t : Templatable) (m : TemplateModel) : Type 0 where
    pub raw : TemplateModel
    pub built : t.build_template ≡ ok raw
    pub filled : TemplateModel
    pub defaults : TemplateFilled cfg raw filled
    pub checked : IsBuilt filled
    pub passed : Passes cfg.template_hooks cfg.named_template_hooks filled m

  pub build_template_model_lem :
      (cfg : GlobalConfig) (t : Templatable) (m : TemplateModel)
      → (build_template_model fl cfg t ≡ ok m) ↔ IsTurn cfg t m
  unfolding build_template_model
  build_template_model_lem cfg t m =
      let name = t.get_name ∷ [] in
      (
        λ h.
            let (raw, built, h1) =
              >>=-eq-ok (wrapping "template %q: %w" name t.build_template) _ h in
            let (_, checked, h2) =
              >>=-eq-ok
                (wrapping "template %q: %w" name
                  (validate_built_template fl (apply_template_defaults cfg raw)))
                _ h1 in
            record {
              raw = raw;
              built = wrapping-eq-ok "template %q: %w" name t.build_template built;
              filled = apply_template_defaults cfg raw;
              defaults = (apply_template_defaults_iff cfg raw _).0 refl;
              checked =
                  (validate_built_template_iff (apply_template_defaults cfg raw)).0
                    (wrapping-eq-ok "template %q: %w" name _ checked);
              passed = (hooked_iff cfg _ m).0 (wrapping-eq-ok "template %q: %w" name _ h2);
            },
        λ b.
            rw
              (
                b.built,
                (apply_template_defaults_iff cfg b.raw b.filled).1 b.defaults,
                (validate_built_template_iff b.filled).1 b.checked,
                (hooked_iff cfg b.filled m).1 b.passed,
              )
              refl,
      )

  -- `buildTemplateModels` returns exactly the models, in the order of the templates, that come of
  -- building each, filling in the defaults, finding that it can run, and passing the hooks without names and
  -- then those with names, none of which fails.
  pub build_template_models_iff :
      (cfg : GlobalConfig) (ts : List Templatable) (ms : List TemplateModel)
      → (build_template_models fl cfg ts ≡ ok ms) ↔ Forall₂ (IsTurn cfg) ts ms
  unfolding build_template_models
  build_template_models_iff cfg ts ms = (
    λ h.
        Forall₂-map (λ t m. (build_template_model_lem cfg t m).0)
          (traverse_sound (build_template_model fl cfg) ts ms h),
    λ all.
        traverse_complete (build_template_model fl cfg)
          (Forall₂-map (λ t m. (build_template_model_lem cfg t m).1) all),
  )
