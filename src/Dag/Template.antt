-- ===== src/Dag/Template.antt =====
-- DAG of dag.go: adding tasks, and building the tasks and the template.
use theo_forge.Prelude.{
  Bool, false, Text, text, Option, none, some, List, [], ◌∷◌, ◌++◌, ◌||◌, ◌==◌, is_empty,
  if◌then◌else◌, Error, name_conflict, Result, ok, errorf, fail_if, wrapping, ◌>>=◌, ◌>>◌,
}
use theo_forge.Model.Templates.{
  TemplateModel, template, Inline, no_inline, inline, dag, DagTaskFields, DagTasks, no_tasks, task,
  no_groups, fields_named,
}
use theo_forge.Build.Parameters.{Parameter}
use theo_forge.Build.Artifacts.{ArtifactBuilder}
use theo_forge.Build.Interfaces.{Templatable}
use theo_forge.Build.Shared.{
  build_inputs_from_params, build_outputs_from_params, validate_template_reference, call_arguments,
}
use theo_forge.Dag.Task.{Task}

-- `m[name]` of a `map[string]bool` that holds no false value.
unfoldable pub member : Text → List Text → Bool
member name [] = false
member name (n ∷ ns) = n == name || member name ns

-- `nodeNames` is the list of the keys, nil where it is empty.
pub record Dag : Type 0 where
  pub name : Text
  pub tasks : List Task
  pub fail_fast : Option Bool
  pub target : Text
  pub inputs : List Parameter
  pub outputs : List Parameter
  pub input_artifacts : List ArtifactBuilder
  pub output_artifacts : List ArtifactBuilder
  pub node_names : List Text

unfoldable pub add_task : Dag → Task → Dag × Option Error
add_task d t =
    if member t.name d.node_names
    then (d, some (name_conflict t.name))
    else (record d { node_names = t.name ∷ d.node_names; tasks = d.tasks ++ t ∷ [] }, none)

unfoldable pub add_tasks : Dag → List Task → Dag × Option Error
unfolding add_task
add_tasks d [] = (d, none)
add_tasks d (t ∷ ts) =
    let rest = add_tasks (add_task d t).0 ts in
    elim (add_task d t).1 [ none ↦ rest | some e ↦ ((add_task d t).0, some e) ]

-- `Inline.BuildTemplate()`, if there is an inline template.
unfoldable pub build_inline : Option Templatable → Result Inline
build_inline none = ok no_inline
build_inline (some t) = do m ← t.build_template; ok (inline m)

unfoldable pub build_dag_task : Task → Result (DagTaskFields × Inline)
unfolding build_inline
build_dag_task t = do
  fail_if (is_empty t.name) (errorf "task name cannot be empty" [])
  validate_template_reference t.template t.template_ref t.inline (text "task " ++ t.name)
  args ←
      call_arguments "task %q argument: %w" "task %q artifact: %w" t.name t.arguments
        t.argument_artifacts
  inlined ← wrapping "task %q inline: %w" (t.name ∷ []) (build_inline t.inline)
  ok (
    record {
      name = t.name;
      template = t.template;
      template_ref = t.template_ref;
      dependencies = t.dependencies;
      depends = t.depends;
      arguments = args;
      when = t.when;
      continue_on = t.continue_on;
      with_items = t.with_items;
      with_param = t.with_param;
      with_sequence = t.with_sequence;
      on_exit = t.on_exit;
      hooks = t.hooks;
    },
    inlined,
  )

unfoldable pub build_dag_tasks : List Task → Result DagTasks
build_dag_tasks [] = ok no_tasks
build_dag_tasks (t ∷ ts) = do
  (m, inlined) ← build_dag_task t
  ms ← build_dag_tasks ts
  ok (task m inlined ms)

unfoldable pub build_dag : Dag → Result TemplateModel
build_dag d = do
  fail_if (is_empty d.name) (errorf "DAG template name cannot be empty" [])
  tasks ← build_dag_tasks d.tasks
  inputs ← wrapping "DAG %q: %w" (d.name ∷ []) (build_inputs_from_params d.inputs d.input_artifacts)
  outputs ←
      wrapping "DAG %q: %w" (d.name ∷ []) (build_outputs_from_params d.outputs d.output_artifacts)
  ok (
      template (record (fields_named d.name) { inputs = inputs; outputs = outputs })
        (dag tasks d.fail_fast d.target) no_groups)

unfoldable pub dag_templatable : Dag → Templatable
dag_templatable d = record { build_template = build_dag d; get_name = d.name }
