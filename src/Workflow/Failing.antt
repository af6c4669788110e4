-- ===== src/Workflow/Failing.antt =====
-- The errors of buildTemplateModels in build_helpers.go.
use theo_forge.Prelude.{
  String, List, [], ◌∷◌, ok, err, Error, wrap, wrapping, ◌≡◌, refl, inl, inr, wrapping-eq-ok,
  FirstFailure, traverse_failure, ap, ◌++◌, >>=-err-cases, wrapping-eq-err,
}
use mathlib.Core.List.{Forall₂}
use theo_forge.Model.Templates.{TemplateModel}
use theo_forge.Build.Interfaces.{Templatable}
use theo_forge.Units.Resources.{Floats}
use theo_forge.Config.Global.{GlobalConfig, apply_template_defaults}
use theo_forge.Workflow.Pipeline.{
  validate_built_template, hooked, build_template_model, build_template_models,
}
use theo_forge.Workflow.Checked.{
  IsBuilt, IsTurn, validate_built_template_iff, build_template_model_lem,
}

module _ (fl : Floats) where
  -- Why a turn fails: the builder, the check after the defaults, or a named hook.
  pub data Fails (cfg : GlobalConfig) (t : Templatable) (d : Error) : Type 0 where
    unbuilt : t.build_template ≡ err d → Fails cfg t d
    unchecked :
        (raw : TemplateModel)
        → t.build_template ≡ ok raw
        → validate_built_template fl (apply_template_defaults cfg raw) ≡ err d
        → Fails cfg t d
    unhooked :
        (raw : TemplateModel)
        → t.build_template ≡ ok raw
        → IsBuilt fl (apply_template_defaults cfg raw)
        → hooked cfg (apply_template_defaults cfg raw) ≡ err d
        → Fails cfg t d

  -- The error of a turn is its cause, wrapped with the name of the template.
  pub build_template_model-Fails :
      (cfg : GlobalConfig) (t : Templatable) (e : Error)
      → build_template_model fl cfg t ≡ err e
      → (d : Error) × Fails cfg t d × (e ≡ wrap "template %q: %w" (t.get_name ∷ []) d)
  unfolding build_template_model
  build_template_model-Fails cfg t e h =
      let f : String = "template %q: %w" in
      let name = t.get_name ∷ [] in
      elim (>>=-err-cases (wrapping f name t.build_template) _ h) [
        | inl h1 ↦ let (d, k, w) = wrapping-eq-err f name t.build_template h1 in (d, unbuilt k, w)
        | inr (raw, b, h2) ↦
            let m = apply_template_defaults cfg raw in
            let built = wrapping-eq-ok f name t.build_template b in
            elim (>>=-err-cases (wrapping f name (validate_built_template fl m)) _ h2) [
              | inl h3 ↦
                  let (d, k, w) = wrapping-eq-err f name (validate_built_template fl m) h3 in
                  (d, unchecked raw built k, w)
              | inr (_, c, h4) ↦
                  let (d, k, w) = wrapping-eq-err f name (hooked cfg m) h4 in
                  let checked = (validate_built_template_iff fl m).0 (wrapping-eq-ok f name _ c) in
                  (d, unhooked raw built checked k, w)
            ]
      ]

  -- The templates before the one that fails are built, and the error names that one.
  pub record IsFailure (cfg : GlobalConfig) (ts : List Templatable) (e : Error) : Type 0 where
    pub before : List Templatable
    pub models : List TemplateModel
    pub failing : Templatable
    pub after : List Templatable
    pub reason : Error
    pub split : ts ≡ before ++ failing ∷ after
    pub done : Forall₂ (IsTurn fl cfg) before models
    pub fails : Fails cfg failing reason
    pub message : e ≡ wrap "template %q: %w" (failing.get_name ∷ []) reason

  failure :
      (cfg : GlobalConfig) (ts : List Templatable) (e : Error)
      → FirstFailure (build_template_model fl cfg) ts e
      → IsFailure cfg ts e
  failure cfg [] e h = elim h [ ]
  failure cfg (t ∷ ts) e (FirstFailure.here h) =
      let (d, f, w) = build_template_model-Fails cfg t e h in
      record {
        before = [];
        models = [];
        failing = t;
        after = ts;
        reason = d;
        split = refl;
        done = Forall₂.nil;
        fails = f;
        message = w;
      }
  failure cfg (t ∷ ts) e (FirstFailure.later {y = m} h more) =
      let r = failure cfg ts e more in
      record {
        before = t ∷ r.before;
        models = m ∷ r.models;
        failing = r.failing;
        after = r.after;
        reason = r.reason;
        split = ap (λ l. t ∷ l) r.split;
        done = Forall₂.cons ((build_template_model_lem fl cfg t m).0 h) r.done;
        fails = r.fails;
        message = r.message;
      }

  -- If `buildTemplateModels` fails, the templates before some template went through, that template
  -- failed (to build, in the check, or in a hook), and the error is its error, wrapped with its
  -- name.
  pub build_template_models-error :
      (cfg : GlobalConfig) (ts : List Templatable) (e : Error)
      → build_template_models fl cfg ts ≡ err e
      → IsFailure cfg ts e
  unfolding build_template_models
  build_template_models-error cfg ts e h =
      failure cfg ts e (traverse_failure (build_template_model fl cfg) ts e h)
