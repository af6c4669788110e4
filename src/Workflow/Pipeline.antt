-- ===== src/Workflow/Pipeline.antt =====
-- buildTemplateModels and validateBuiltTemplate of build_helpers.go: each template is built, gets the
-- defaults, is checked, and passes the hooks.
use theo_forge.Prelude.{
  Text, String, Option, none, some, List, [], ◌∷◌, is_empty, Result, ok, err, empty_image, fail_if,
  wrapping, traverse, ◌>>=◌, ◌>>◌,
}
use theo_forge.Model.Basic.{ResourceRequirements}
use theo_forge.Model.Templates.{TemplateModel, fields}
use theo_forge.Build.Interfaces.{Templatable}
use theo_forge.Units.Resources.{Floats, resource_requirements}
use theo_forge.Config.Global.{GlobalConfig, apply_template_defaults, dispatch_template_hooks}
use theo_forge.Config.Named.{dispatch_named_template_hooks}

-- `if p != nil { if err := check(*p); err != nil { return err } }`
unfoldable pub if_present : {A : Type 0} → (A → Result (Unit {0})) → Option A → Result (Unit {0})
if_present check none = ok tt
if_present check (some a) = check a

-- The named hooks follow the anonymous ones; an error of theirs ends the build.
unfoldable pub hooked : GlobalConfig → TemplateModel → Result TemplateModel
hooked cfg m =
    let (m, failed) = dispatch_named_template_hooks cfg (dispatch_template_hooks cfg m) in
    elim failed [ none ↦ ok m | some e ↦ err e ]

module _ (fl : Floats) where
  -- The checks that the code makes of a container and, in the same words, of a script.
  unfoldable pub check_part : String → Text → Option ResourceRequirements → Result (Unit {0})
  check_part format image resources = do
    fail_if (is_empty image) empty_image
    if_present (λ r. wrapping format [] (resource_requirements fl r)) resources

  unfoldable pub validate_built_template : TemplateModel → Result (Unit {0})
  validate_built_template t = do
    if_present (λ c. check_part "container resources: %w" c.image c.resources) (fields t).container
    if_present (λ s. check_part "script resources: %w" s.image s.resources) (fields t).script

  -- The body of the loop.
  unfoldable pub build_template_model : GlobalConfig → Templatable → Result TemplateModel
  build_template_model cfg t = do
    raw ← wrapping "template %q: %w" (t.get_name ∷ []) t.build_template
    let m = apply_template_defaults cfg raw
    wrapping "template %q: %w" (t.get_name ∷ []) (validate_built_template m)
    wrapping "template %q: %w" (t.get_name ∷ []) (hooked cfg m)

  unfoldable pub build_template_models :
      GlobalConfig → List Templatable → Result (List TemplateModel)
  build_template_models cfg templates = traverse (build_template_model cfg) templates
