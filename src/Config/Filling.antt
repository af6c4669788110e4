-- ===== src/Config/Filling.antt =====
-- What the defaults of config/config.go make of a template, field by field.
use theo_forge.Prelude.{
  Text, Option, none, some, [], ◌∷◌, ◌≡◌, ◌≢◌, refl, ◌↔◌, ◌⊎◌, inl, inr, arith, sym, ap,
}
use theo_forge.Model.Templates.{TemplateModel, template, TemplateFields}
use theo_forge.Model.Containers.{ContainerModel, ScriptModel}
use theo_forge.Config.Global.{
  GlobalConfig, or_default, default_container, default_script, default_fields,
  apply_template_defaults,
}

-- A field that is set stays as it is, and one that is empty gets the value.
abbrev pub Filled : Text → Text → Text → Type 0
Filled field value result = ((field ≢ []) × (result ≡ field)) ⊎ ((field ≡ []) × (result ≡ value))

-- The image and the pull policy are filled, and nothing else changes.
pub record ContainerFilled (g : GlobalConfig) (c d : ContainerModel) : Type 0 where
  pub image : Text
  pub policy : Text
  pub with_image : Filled c.image g.image image
  pub with_policy : Filled c.image_pull_policy g.image_pull_policy policy
  pub others : d ≡ record c { image = image; image_pull_policy = policy }

pub record ScriptFilled (g : GlobalConfig) (c d : ScriptModel) : Type 0 where
  pub image : Text
  pub policy : Text
  pub with_image : Filled c.image g.image image
  pub with_policy : Filled c.image_pull_policy g.image_pull_policy policy
  pub others : d ≡ record c { image = image; image_pull_policy = policy }

-- What is there is related to what is there, and what is missing stays so.
abbrev pub Both : {A B : Type 0} → (A → B → Type 0) → Option A → Option B → Type 0
Both R none none = Unit
Both R none (some b) = ⊥
Both R (some a) none = ⊥
Both R (some a) (some b) = R a b

-- The container, the script and the service account are filled, and nothing else changes.
pub record FieldsFilled (g : GlobalConfig) (f e : TemplateFields) : Type 0 where
  pub container : Option ContainerModel
  pub script : Option ScriptModel
  pub account : Text
  pub with_container : Both (ContainerFilled g) f.container container
  pub with_script : Both (ScriptFilled g) f.script script
  pub with_account : Filled f.service_account_name g.service_account_name account
  pub others :
      e ≡ record f { container = container; script = script; service_account_name = account }

-- A template after the defaults: its tasks and its steps are the same.
abbrev pub TemplateFilled : GlobalConfig → TemplateModel → TemplateModel → Type 0
TemplateFilled g (template f d s) m =
    (e : TemplateFields) × FieldsFilled g f e × (m ≡ template e d s)

or_default-Filled : (field value : Text) → Filled field value (or_default field value)
or_default-Filled [] [] = inr (refl, refl)
or_default-Filled [] (c ∷ value) = inr (refl, refl)
or_default-Filled (c ∷ field) value = inl (λ q. ground (arith, q), refl)

Filled-or_default :
    (field value result : Text) → Filled field value result → or_default field value ≡ result
Filled-or_default [] [] result (inl (n, e)) = sym e
Filled-or_default [] (c ∷ value) result (inl (n, e)) = elim (n refl) [ ]
Filled-or_default (c ∷ field) value result (inl (n, e)) = sym e
Filled-or_default [] [] result (inr (n, e)) = sym e
Filled-or_default [] (c ∷ value) result (inr (n, e)) = sym e
Filled-or_default (c ∷ field) value result (inr (n, e)) = ground (arith, n)

default_container-ContainerFilled :
    (g : GlobalConfig) (c : ContainerModel) → ContainerFilled g c (default_container g c)
unfolding default_container
default_container-ContainerFilled g c = record {
  image = _;
  policy = _;
  with_image = or_default-Filled c.image g.image;
  with_policy = or_default-Filled c.image_pull_policy g.image_pull_policy;
  others = refl;
}

ContainerFilled-default_container :
    (g : GlobalConfig) (c d : ContainerModel) → ContainerFilled g c d → default_container g c ≡ d
unfolding default_container
ContainerFilled-default_container g c d f =
    rw (Filled-or_default _ _ _ f.with_image, Filled-or_default _ _ _ f.with_policy, f.others) refl

default_script-ScriptFilled :
    (g : GlobalConfig) (c : ScriptModel) → ScriptFilled g c (default_script g c)
unfolding default_script
default_script-ScriptFilled g c = record {
  image = _;
  policy = _;
  with_image = or_default-Filled c.image g.image;
  with_policy = or_default-Filled c.image_pull_policy g.image_pull_policy;
  others = refl;
}

ScriptFilled-default_script :
    (g : GlobalConfig) (c d : ScriptModel) → ScriptFilled g c d → default_script g c ≡ d
unfolding default_script
ScriptFilled-default_script g c d f =
    rw (Filled-or_default _ _ _ f.with_image, Filled-or_default _ _ _ f.with_policy, f.others) refl

Both-map_iff :
    {A : Type 0} (R : A → A → Type 0) (f : A → A)
    → ((a : A) → R a (f a))
    → ((a b : A) → R a b → f a ≡ b)
    → (o p : Option A)
    → (Both R o (elim o [ none ↦ none | some a ↦ some (f a) ]))
      × (Both R o p → (elim o [ none ↦ none | some a ↦ some (f a) ]) ≡ p)
Both-map_iff R f to from none none = (tt, λ h. refl)
Both-map_iff R f to from none (some b) = (tt, λ h. elim h [ ])
Both-map_iff R f to from (some a) none = (to a, λ h. elim h [ ])
Both-map_iff R f to from (some a) (some b) = (to a, λ h. ap some (from a b h))

-- `ApplyTemplateDefaults` fills the image and the pull policy of the container and of the script and the
-- service account, where these are empty, with the values of the configuration, keeps them where they
-- are set, and changes nothing else.
pub apply_template_defaults_iff :
    (g : GlobalConfig) (t m : TemplateModel)
    → (apply_template_defaults g t ≡ m) ↔ TemplateFilled g t m
unfolding apply_template_defaults default_fields
apply_template_defaults_iff g (template f d s) m =
    let containers =
      Both-map_iff (ContainerFilled g) (default_container g) (default_container-ContainerFilled g)
        (ContainerFilled-default_container g) f.container in
    let scripts =
      Both-map_iff (ScriptFilled g) (default_script g) (default_script-ScriptFilled g)
        (ScriptFilled-default_script g) f.script in
    (
      λ h. (
        default_fields g f,
        record {
          container = _;
          script = _;
          account = _;
          with_container = (containers none).0;
          with_script = (scripts none).0;
          with_account = or_default-Filled f.service_account_name g.service_account_name;
          others = refl;
        },
        sym h,
      ),
      λ (e, k, q).
          rw
            (
              q,
              k.others,
              ← (containers k.container).1 k.with_container,
              ← (scripts k.script).1 k.with_script,
              ← Filled-or_default _ _ _ k.with_account,
            )
            refl,
    )
