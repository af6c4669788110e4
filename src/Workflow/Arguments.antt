-- ===== src/Workflow/Arguments.antt =====
-- The arguments that `Build` of workflow.go and of workflow_template.go makes.
use theo_forge.Prelude.{
  true, ◌&&◌, Option, none, some, List, [], ◌∷◌, is_empty, ok, wrapping, wrapping-eq-ok, traverse,
  ◌≡◌, refl, sym, ap, ◌↔◌, inl, inr, arith, Bool-cases, >>=-eq-ok, traverse_sound,
  traverse_complete,
}
use mathlib.Core.List.{Forall₂}
use theo_forge.Model.Basic.{ParameterModel}
use theo_forge.Model.Artifacts.{ArgumentsModel, ArtifactModel}
use theo_forge.Build.Artifacts.{ArtifactBuilder}
use theo_forge.Build.Parameters.{Parameter, as_argument}
use theo_forge.Workflow.Checked.{Forall₂-map}
use theo_forge.Workflow.Resource.{Workflow, build_workflow_arguments}
use theo_forge.Workflow.Templates.{parameter_arguments}

-- Every parameter and every artifact is built, in order.
pub record AreBuilt (ps : List Parameter) (artifacts : List ArtifactBuilder) (a : ArgumentsModel)
    : Type 0 where
  pub parameters : Forall₂ (λ p m. as_argument p ≡ ok m) ps a.parameters
  pub artifacts_built : Forall₂ (λ b m. b.build ≡ ok m) artifacts a.artifacts

-- There are no arguments if there is nothing to build, and else all of it is built.
pub data IsArguments (ps : List Parameter) (artifacts : List ArtifactBuilder)
    (out : Option ArgumentsModel) : Type 0 where
  without : ps ≡ [] → artifacts ≡ [] → out ≡ none → IsArguments ps artifacts out
  all :
      (a : ArgumentsModel)
      → ¬ ((ps ≡ []) × (artifacts ≡ []))
      → AreBuilt ps artifacts a
      → out ≡ some a
      → IsArguments ps artifacts out

nothing_iff :
    {A B : Type 0} (xs : List A) (ys : List B)
    → ((is_empty xs && is_empty ys) ≡ true) ↔ ((xs ≡ []) × (ys ≡ []))
nothing_iff [] [] = (λ h. (refl, refl), λ h. refl)
nothing_iff [] (y ∷ ys) = (λ h. ground (arith, h), λ h. ground (arith, h.1))
nothing_iff (x ∷ xs) ys = (λ h. ground (arith, h), λ h. ground (arith, h.0))

parameters_iff :
    (ps : List Parameter) (ms : List ParameterModel)
    → (traverse (λ p. wrapping "argument %q: %w" (p.name ∷ []) (as_argument p)) ps ≡ ok ms)
      ↔ Forall₂ (λ p m. as_argument p ≡ ok m) ps ms
parameters_iff ps ms = (
  λ h.
      Forall₂-map (λ p m. wrapping-eq-ok "argument %q: %w" (p.name ∷ []) (as_argument p))
        (traverse_sound (λ p. wrapping "argument %q: %w" (p.name ∷ []) (as_argument p)) ps ms h),
  λ all.
      traverse_complete (λ p. wrapping "argument %q: %w" (p.name ∷ []) (as_argument p))
        (Forall₂-map (λ p m e. rw e refl) all),
)

artifacts_iff :
    (bs : List ArtifactBuilder) (ms : List ArtifactModel)
    → (traverse (λ a. wrapping "argument artifact: %w" [] a.build) bs ≡ ok ms)
      ↔ Forall₂ (λ b m. b.build ≡ ok m) bs ms
artifacts_iff bs ms = (
  λ h.
      Forall₂-map (λ b m. wrapping-eq-ok "argument artifact: %w" [] b.build)
        (traverse_sound (λ a. wrapping "argument artifact: %w" [] a.build) bs ms h),
  λ all.
      traverse_complete (λ a. wrapping "argument artifact: %w" [] a.build)
        (Forall₂-map (λ b m e. rw e refl) all),
)

pub build_workflow_arguments_iff :
    (w : Workflow) (out : Option ArgumentsModel)
    → (build_workflow_arguments w ≡ ok out) ↔ IsArguments w.arguments w.argument_artifacts out
unfolding build_workflow_arguments
build_workflow_arguments_iff w out =
    let nothing = nothing_iff w.arguments w.argument_artifacts in
    elim (Bool-cases (is_empty w.arguments && is_empty w.argument_artifacts)) [
      | inl e ↦ (
        λ h.
            let same : none ≡ out = cc (rw (e, build_workflow_arguments) at h) in
            let (ps, bs) = nothing.0 e in without ps bs (sym same),
        λ i. elim i [
          | without p b o ↦ rw (e, build_workflow_arguments, o) refl
          | all a n k o ↦ elim (n (nothing.0 e)) [ ]
        ],
      )
      | inr e ↦ (
        λ h.
            let (ms, one, h1) =
              >>=-eq-ok (traverse _ w.arguments) _ (rw (e, build_workflow_arguments) at h) in
            let (bs, two, h2) = >>=-eq-ok (traverse _ w.argument_artifacts) _ h1 in
            let same : some (record { parameters = ms; artifacts = bs }) ≡ out = cc in
            all _ (λ n. let bad = nothing.1 n in ground (arith, e, bad))
              (record {
                parameters = (parameters_iff w.arguments ms).0 one;
                artifacts_built = (artifacts_iff w.argument_artifacts bs).0 two;
              })
              (sym same),
        λ i. elim i [
          | without p b o ↦ let bad = nothing.1 (p, b) in ground (arith, e, bad)
          | all a n k o ↦
              rw
                (
                  e,
                  build_workflow_arguments,
                  (parameters_iff w.arguments a.parameters).1 k.parameters,
                  (artifacts_iff w.argument_artifacts a.artifacts).1 k.artifacts_built,
                  o,
                )
                refl
        ],
      )
    ]

Forall₂-nil : {A B : Type 0} {R : A → B → Type 0} {ys : List B} → Forall₂ R [] ys → ys ≡ []
Forall₂-nil Forall₂.nil = refl

-- The arguments of the resources that have parameters only.
pub parameter_arguments_iff :
    (ps : List Parameter) (out : Option ArgumentsModel)
    → (parameter_arguments ps ≡ ok out) ↔ IsArguments ps [] out
unfolding parameter_arguments traverse
parameter_arguments_iff [] out = (
  λ h. without refl refl (let same : none ≡ out = cc in sym same),
  λ i. elim i [ without p b o ↦ rw o refl | all a n k o ↦ elim (n (refl, refl)) [ ] ],
)
parameter_arguments_iff (p ∷ ps) out = (
  λ h.
      let (ms, one, h1) =
        >>=-eq-ok
          (traverse (λ x. wrapping "argument %q: %w" (x.name ∷ []) (as_argument x)) (p ∷ ps)) _ h in
      let same : some (record { parameters = ms; artifacts = [] }) ≡ out = cc in
      all _ (λ n. ground (arith, n.0))
        (record { parameters = (parameters_iff (p ∷ ps) ms).0 one; artifacts_built = Forall₂.nil })
        (sym same),
  λ i. elim i [
    | without q b o ↦ ground (arith, q)
    | all a n k o ↦
        let plain : record { parameters = a.parameters; artifacts = [] } ≡ a =
          ap (λ x. record { parameters = a.parameters; artifacts = x })
            (sym (Forall₂-nil k.artifacts_built)) in
        rw ((parameters_iff (p ∷ ps) a.parameters).1 k.parameters, o, plain) refl
  ],
)
