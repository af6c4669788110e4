-- ===== src/Config/Defaults.antt =====
-- The scalar defaults of config/config.go: what `ApplyTemplateDefaults` fills in and what it keeps.
use theo_forge.Prelude.{
  false, Text, some, is_empty, ◌≡◌, refl, inl, inr, arith, Bool-cases, Option-cases,
}
use theo_forge.Model.Templates.{TemplateModel, template, TemplateFields}
use theo_forge.Model.Containers.{ContainerModel, ScriptModel}
use theo_forge.Config.Global.{
  GlobalConfig, or_default, default_container, default_script, default_fields,
  apply_template_defaults,
}

-- A default fills an empty field, and only that.
pub or_default_set : (field value : Text) → is_empty field ≡ false → or_default field value ≡ field
or_default_set field value h = rw h refl

pub or_default_again :
    (field value : Text) → or_default (or_default field value) value ≡ or_default field value
or_default_again field value = elim (Bool-cases (is_empty field)) [
  | inl e ↦ elim (Bool-cases (is_empty value)) [
    | inl v ↦ rw (e, v, e) refl
    | inr v ↦ rw (e, v, v) refl
  ]
  | inr e ↦ rw (e, e) refl
]

default_container-idempotent :
    (g : GlobalConfig) (c : ContainerModel)
    → default_container g (default_container g c) ≡ default_container g c
unfolding default_container
default_container-idempotent g c =
    rw (or_default_again c.image g.image, or_default_again c.image_pull_policy g.image_pull_policy)
      refl

default_script-idempotent :
    (g : GlobalConfig) (c : ScriptModel)
    → default_script g (default_script g c) ≡ default_script g c
unfolding default_script
default_script-idempotent g c =
    rw (or_default_again c.image g.image, or_default_again c.image_pull_policy g.image_pull_policy)
      refl

default_fields-idempotent :
    (g : GlobalConfig) (f : TemplateFields)
    → default_fields g (default_fields g f) ≡ default_fields g f
unfolding default_fields
default_fields-idempotent g f = elim (Option-cases f.container) [
  | inl c ↦ elim (Option-cases f.script) [
    | inl s ↦ rw (c, s, or_default_again f.service_account_name g.service_account_name) refl
    | inr (x, s) ↦
        rw
          (
            c,
            s,
            or_default_again f.service_account_name g.service_account_name,
            default_script-idempotent g x,
          )
          refl
  ]
  | inr (y, c) ↦ elim (Option-cases f.script) [
    | inl s ↦
        rw
          (
            c,
            s,
            or_default_again f.service_account_name g.service_account_name,
            default_container-idempotent g y,
          )
          refl
    | inr (x, s) ↦
        rw
          (
            c,
            s,
            or_default_again f.service_account_name g.service_account_name,
            default_container-idempotent g y,
            default_script-idempotent g x,
          )
          refl
  ]
]

-- Applying the defaults of a configuration to a template a second time changes nothing.
pub apply_template_defaults-idempotent :
    (g : GlobalConfig) (t : TemplateModel)
    → apply_template_defaults g (apply_template_defaults g t) ≡ apply_template_defaults g t
unfolding apply_template_defaults
apply_template_defaults-idempotent g (template f d s) = rw (default_fields-idempotent g f) refl

-- The image that a built template's container or script has, if there is one of them.
abbrev pub HasImages : TemplateModel → Type 0
HasImages (template f d s) =
    ((c : ContainerModel) → f.container ≡ some c → is_empty c.image ≡ false)
    × ((c : ScriptModel) → f.script ≡ some c → is_empty c.image ≡ false)

or_default-nonempty :
    (field value : Text) → is_empty value ≡ false → is_empty (or_default field value) ≡ false
or_default-nonempty field value h = elim (Bool-cases (is_empty field)) [
  | inl e ↦ rw (e, h) h
  | inr e ↦ rw e e
]

-- If the configuration has an image, a container and a script have one after the defaults are
-- applied.
pub apply_template_defaults-HasImages :
    (g : GlobalConfig) (t : TemplateModel)
    → is_empty g.image ≡ false
    → HasImages (apply_template_defaults g t)
unfolding apply_template_defaults default_fields default_container default_script
apply_template_defaults-HasImages g (template f d s) h = (
  elim (Option-cases f.container) [
    | inl e ↦ rw e (λ c q. ground (arith, q))
    | inr (c, e) ↦ rw e (λ x q.
        let same : default_container g c ≡ x = cc in
        rw (← same) (or_default-nonempty c.image g.image h))
  ],
  elim (Option-cases f.script) [
    | inl e ↦ rw e (λ c q. ground (arith, q))
    | inr (c, e) ↦ rw e (λ x q.
        let same : default_script g c ≡ x = cc in
        rw (← same) (or_default-nonempty c.image g.image h))
  ],
)
