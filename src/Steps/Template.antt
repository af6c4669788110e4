-- ===== src/Steps/Template.antt =====
-- steps.go: steps, groups of parallel steps, and the Steps template.
use theo_forge.Prelude.{
  Text, text, Option, none, some, List, [], ◌∷◌, ◌++◌, is_empty, if◌then◌else◌, Error,
  name_conflict, Result, ok, errorf, fail_if, wrapping, ◌>>=◌, ◌>>◌,
}
use theo_forge.Model.Basic.{TemplateRef, ContinueOn, Any, Sequence}
use theo_forge.Model.Templates.{
  LifecycleHook, TemplateModel, template, Inline, no_dag, StepFields, StepGroup, no_steps, step,
  StepGroups, no_groups, group, fields_named,
}
use theo_forge.Build.Parameters.{Parameter}
use theo_forge.Build.Artifacts.{ArtifactBuilder}
use theo_forge.Build.Interfaces.{Templatable}
use theo_forge.Build.Shared.{
  build_inputs_from_params, build_outputs_from_params, validate_template_reference, call_arguments,
}
use theo_forge.Dag.Template.{member, build_inline}

pub record Step : Type 0 where
  pub name : Text
  pub template : Text
  pub template_ref : Option TemplateRef
  pub arguments : List Parameter
  pub argument_artifacts : List ArtifactBuilder
  pub when : Text
  pub continue_on : Option ContinueOn
  pub with_items : List Any
  pub with_param : Text
  pub with_sequence : Option Sequence
  pub inline : Option Templatable
  pub on_exit : Text
  pub hooks : List (Text × LifecycleHook)

unfoldable pub get_output_parameter : Step → Text → Text
get_output_parameter s param_name =
    text "{{steps." ++ (s.name ++ (text ".outputs.parameters." ++ (param_name ++ text "}}")))

unfoldable pub get_output_result : Step → Text
get_output_result s = text "{{steps." ++ (s.name ++ text ".outputs.result}}")

unfoldable pub get_output_artifact : Step → Text → Text
get_output_artifact s artifact_name =
    text "{{steps." ++ (s.name ++ (text ".outputs.artifacts." ++ (artifact_name ++ text "}}")))

unfoldable pub build_step : Step → Result (StepFields × Inline)
build_step s = do
  fail_if (is_empty s.name) (errorf "step name cannot be empty" [])
  validate_template_reference s.template s.template_ref s.inline (text "step " ++ s.name)
  args ←
      call_arguments "step %q argument: %w" "step %q artifact: %w" s.name s.arguments
        s.argument_artifacts
  inlined ← wrapping "step %q inline: %w" (s.name ∷ []) (build_inline s.inline)
  ok (
    record {
      name = s.name;
      template = s.template;
      template_ref = s.template_ref;
      arguments = args;
      when = s.when;
      continue_on = s.continue_on;
      with_items = s.with_items;
      with_param = s.with_param;
      with_sequence = s.with_sequence;
      on_exit = s.on_exit;
      hooks = s.hooks;
    },
    inlined,
  )

pub record Parallel : Type 0 where
  pub steps : List Step
  pub node_names : List Text

unfoldable pub add_step : Parallel → Step → Parallel × Option Error
add_step p s =
    if member s.name p.node_names
    then (p, some (name_conflict s.name))
    else (record { steps = p.steps ++ s ∷ []; node_names = s.name ∷ p.node_names }, none)

unfoldable pub build_steps : List Step → Result StepGroup
build_steps [] = ok no_steps
build_steps (s ∷ ss) = do (m, inlined) ← build_step s; ms ← build_steps ss; ok (step m inlined ms)

pub record Steps : Type 0 where
  pub name : Text
  pub step_groups : List Parallel
  pub inputs : List Parameter
  pub outputs : List Parameter
  pub input_artifacts : List ArtifactBuilder
  pub output_artifacts : List ArtifactBuilder
  pub node_names : List Text

unfoldable pub add_sequential_step : Steps → Step → Steps × Option Error
add_sequential_step s st =
    if member st.name s.node_names then (s, some (name_conflict st.name)) else (
      record s {
        node_names = st.name ∷ s.node_names;
        step_groups = s.step_groups ++ record { steps = st ∷ []; node_names = st.name ∷ [] } ∷ [];
      },
      none,
    )

-- The loop of `AddParallelGroup`: the names registered on the template, the group so far, the error.
unfoldable pub fill_group : List Text → Parallel → List Step → List Text × Parallel × Option Error
fill_group names p [] = (names, p, none)
fill_group names p (st ∷ sts) =
    let rest = fill_group (st.name ∷ names) (add_step p st).0 sts in
    if member st.name names
    then (names, p, some (name_conflict st.name))
    else elim (add_step p st).1 [ none ↦ rest | some e ↦ (st.name ∷ names, p, some e) ]

abbrev pub no_parallel : Parallel
no_parallel = record { steps = []; node_names = [] }

-- The names stay registered where the group is refused.
unfoldable pub add_parallel_group : Steps → List Step → Steps × Option Error
add_parallel_group s sts =
    let (names, p, e) = fill_group s.node_names no_parallel sts in
    elim e [
      | none ↦ (record s { node_names = names; step_groups = s.step_groups ++ p ∷ [] }, none)
      | some e ↦ (record s { node_names = names }, some e)
    ]

unfoldable pub build_groups : List Parallel → Result StepGroups
build_groups [] = ok no_groups
build_groups (p ∷ ps) = do m ← build_steps p.steps; ms ← build_groups ps; ok (group m ms)

unfoldable pub build_steps_template : Steps → Result TemplateModel
build_steps_template s = do
  fail_if (is_empty s.name) (errorf "steps template name cannot be empty" [])
  groups ← build_groups s.step_groups
  inputs ←
      wrapping "steps %q: %w" (s.name ∷ []) (build_inputs_from_params s.inputs s.input_artifacts)
  outputs ←
      wrapping "steps %q: %w" (s.name ∷ []) (build_outputs_from_params s.outputs s.output_artifacts)
  ok (template (record (fields_named s.name) { inputs = inputs; outputs = outputs }) no_dag groups)

unfoldable pub steps_templatable : Steps → Templatable
steps_templatable s = record { build_template = build_steps_template s; get_name = s.name }
