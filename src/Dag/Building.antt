-- ===== src/Dag/Building.antt =====
-- Building a DAG template: the tasks of the result, and when building succeeds.
use theo_forge.Prelude.{
  ◌≡◌, ◌≢◌, Text, List, [], ◌∷◌, is_empty, ok, >>=-eq-ok, fail_if-eq-ok, AllDistinct, arith, errorf,
  wrapping, false,
}
use theo_forge.Model.Templates.{
  TemplateModel, Inline, dag, DagTaskFields, DagTasks, task_names, dag_of, no_dag, DagModel,
}
use theo_forge.Build.Shared.{
  validate_template_reference, call_arguments, build_inputs_from_params, build_outputs_from_params,
}
use theo_forge.Build.References.{HasOneReference, validate_template_reference_sound}
use theo_forge.Dag.Task.{Task}
use theo_forge.Dag.Template.{Dag, build_dag_task, build_dag_tasks, build_dag, build_inline}
use theo_forge.Dag.Nodes.{IsTracked, task_list_names}

nonempty : (s : Text) → is_empty s ≡ false → s ≢ []
nonempty [] h = ground arith
nonempty (c ∷ s) h = ground arith

-- A built task keeps the name, the template reference and the dependencies, has a name, and has exactly
-- one reference to a template.
pub build_dag_task-valid :
    (t : Task) {m : DagTaskFields} {i : Inline}
    → build_dag_task t ≡ ok (m, i)
    → (m.name ≡ t.name)
      × (m.depends ≡ t.depends)
      × (t.name ≢ [])
      × HasOneReference t.template t.template_ref t.inline
unfolding build_dag_task
build_dag_task-valid t h =
    let (named, h1) = fail_if-eq-ok _ _ _ h in
    let (_, one, h2) = >>=-eq-ok (validate_template_reference _ _ _ _) _ h1 in
    let (args, _, h3) = >>=-eq-ok (call_arguments _ _ _ _ _) _ h2 in
    let (inlined, _, h4) =
      >>=-eq-ok (wrapping "task %q inline: %w" (t.name ∷ []) (build_inline t.inline)) _ h3 in
    (ground arith, ground arith, nonempty _ named, validate_template_reference_sound _ _ _ _ one)

pub build_dag_tasks-names :
    (ts : List Task) {ms : DagTasks}
    → build_dag_tasks ts ≡ ok ms
    → task_names ms ≡ task_list_names ts
unfolding build_dag_tasks
build_dag_tasks-names [] h = ground arith
build_dag_tasks-names (t ∷ ts) h =
    let ((m, i), one, h1) = >>=-eq-ok (build_dag_task t) _ h in
    let (rest, more, h2) = >>=-eq-ok (build_dag_tasks ts) _ h1 in
    ground (arith, build_dag_task-valid t one, build_dag_tasks-names ts more)

abbrev pub names_of : DagModel → List Text
names_of no_dag = []
names_of (dag tasks fail_fast target) = task_names tasks

-- A DAG whose names are tracked, as `AddTask` and `AddTasks` keep them, and that builds gives a
-- template that holds a task for each task of the DAG, in order, with names that are distinct.
pub build_dag-AllDistinct :
    (d : Dag) {m : TemplateModel}
    → IsTracked d
    → build_dag d ≡ ok m
    → (names_of (dag_of m) ≡ task_list_names d.tasks) × AllDistinct (names_of (dag_of m))
unfolding build_dag
build_dag-AllDistinct d {m} v h =
    let (named, h1) =
      fail_if-eq-ok (is_empty d.name) (errorf "DAG template name cannot be empty" []) _ h in
    let (tasks, built, h2) = >>=-eq-ok (build_dag_tasks d.tasks) _ h1 in
    let (inputs, _, h3) =
      >>=-eq-ok
        (wrapping "DAG %q: %w" (d.name ∷ []) (build_inputs_from_params d.inputs d.input_artifacts))
        _ h2 in
    let (outputs, _, h4) =
      >>=-eq-ok
        (wrapping "DAG %q: %w" (d.name ∷ [])
          (build_outputs_from_params d.outputs d.output_artifacts))
        _ h3 in
    let same = build_dag_tasks-names d.tasks built in
    let e : names_of (dag_of m) ≡ task_list_names d.tasks = ground (arith, same) in
    (e, rw e v.distinct)
