-- ===== src/Examples/Graphs.antt =====
-- Tasks, DAGs and steps.
use theo_forge.Prelude.{
  ◌++◌, Text, text, Option, none, some, List, [], ◌∷◌, ◌≡◌, refl, ◌⊎◌, inl, inr, arith,
  name_conflict, err, Result, traverse, ok, In, AllDistinct,
}
use theo_forge.Model.Templates.{dag_of, TemplateModel, template, fields_named, no_dag, no_groups}
use theo_forge.Model.Basic.{TemplateRef}
use theo_forge.Build.Interfaces.{Templatable}
use theo_forge.Steps.Template.{Step, Steps, Parallel, add_sequential_step, add_parallel_group}
use theo_forge.Steps.Nodes.{
  Call, sequential, parallel, make_calls, make_calls-IsTracked, step_list_names,
}
use theo_forge.Steps.Groups.{add_parallel_group-leaks, AllNew, add_parallel_group_lem}
use theo_forge.Steps.Nodes.{IsTracked as StepsAreTracked}
use theo_forge.Dag.Task.{Task, then_task}
use theo_forge.Dag.Grammar.{name, conj, disj, OrExpr, AndExpr, named, atom, conjunction, or, IsName}
use theo_forge.Dag.Precedence.{then_task-and}
use theo_forge.Dag.Template.{Dag, build_dag, build_dag_task, build_dag_tasks, build_inline}
use theo_forge.Dag.Nodes.{IsTracked}
use theo_forge.Dag.Building.{build_dag-AllDistinct, names_of}
use theo_forge.Build.Shared.{
  validate_template_reference, call_arguments, build_inputs_from_params, build_outputs_from_params,
  parameters_with, artifacts_with,
}

abbrev pub task : Text → Text → Task
task label expr = record {
  name = label;
  template = text "echo";
  template_ref = none;
  dependencies = [];
  depends = expr;
  arguments = [];
  argument_artifacts = [];
  when = [];
  continue_on = none;
  with_items = [];
  with_param = [];
  with_sequence = none;
  inline = none;
  on_exit = [];
  hooks = [];
}

a-IsName : IsName (text "A")
a-IsName = ground arith

b-IsName : IsName (text "B")
b-IsName = ground arith

c-IsName : IsName (text "C")
c-IsName = ground arith

either : OrExpr (text "A || B") (disj (name (text "A")) (name (text "B")))
either =
    or (text " ") (text " ") (conjunction (atom (named a-IsName))) (refl, tt) (refl, tt)
      (atom (named b-IsName)) refl

then_task-and_example :
    AndExpr
      (then_task (task (text "C") []) (task (text "D") (text "A || B"))).depends
      (conj (disj (name (text "A")) (name (text "B"))) (name (text "C")))
then_task-and_example =
    then_task-and (task (text "C") []) (task (text "D") (text "A || B")) either c-IsName

abbrev no_tasks : Dag
no_tasks = record {
  name = text "main";
  tasks = [];
  inputs = [];
  outputs = [];
  input_artifacts = [];
  output_artifacts = [];
  fail_fast = none;
  target = [];
  node_names = [];
}

abbrev pub two : Dag
two = record no_tasks {
  tasks = task (text "A") [] ∷ task (text "B") (text "A") ∷ [];
  node_names = text "B" ∷ text "A" ∷ [];
}

pub two-IsTracked : IsTracked two
two-IsTracked = record {
  distinct = ground arith;
  tracked = λ n. (
    λ h. elim h [ inl e ↦ inr (inl e) | inr (inl e) ↦ inl e | inr (inr b) ↦ elim b [ ] ],
    λ h. elim h [ inl e ↦ inr (inl e) | inr (inl e) ↦ inl e | inr (inr b) ↦ elim b [ ] ],
  );
}

abbrev from_ok : {A : Type 0} → A → Result A → A
from_ok a (ok b) = b
from_ok a (err e) = a

abbrev two_model : TemplateModel
two_model = from_ok (template (fields_named []) no_dag no_groups) (build_dag two)

two-built : build_dag two ≡ ok two_model
unfolding build_dag build_dag_tasks build_dag_task validate_template_reference call_arguments
    build_inline build_inputs_from_params build_outputs_from_params parameters_with artifacts_with
    traverse
two-built = refl

build_dag-AllDistinct_example :
    (names_of (dag_of two_model) ≡ text "A" ∷ text "B" ∷ [])
    × AllDistinct (names_of (dag_of two_model))
build_dag-AllDistinct_example = build_dag-AllDistinct two two-IsTracked two-built

abbrev no_ref : Option TemplateRef
no_ref = none

abbrev no_inline : Option Templatable
no_inline = none

abbrev echo : Step
echo = record {
  name = text "echo";
  template = text "echo";
  template_ref = none;
  arguments = [];
  argument_artifacts = [];
  when = [];
  continue_on = none;
  with_items = [];
  with_param = [];
  with_sequence = none;
  inline = none;
  on_exit = [];
  hooks = [];
}

abbrev no_groups_yet : Steps
no_groups_yet = record {
  name = text "main";
  step_groups = [];
  inputs = [];
  outputs = [];
  input_artifacts = [];
  output_artifacts = [];
  node_names = [];
}

abbrev calls : List Call
calls = sequential echo ∷ parallel (record echo { name = text "A" } ∷ echo ∷ []) ∷ []

make_calls-IsTracked_example : StepsAreTracked (make_calls no_groups_yet calls)
make_calls-IsTracked_example =
    make_calls-IsTracked no_groups_yet calls (record { distinct = tt; tracked = λ n h. h })

no_groups_yet-IsTracked : StepsAreTracked no_groups_yet
no_groups_yet-IsTracked = record { distinct = tt; tracked = λ n h. h }

abbrev pair : List Step
pair = record echo { name = text "A" } ∷ echo ∷ []

add_parallel_group_example :
    (AllNew [] pair
      × ((add_parallel_group no_groups_yet pair).1 ≡ none)
      × ((p : Parallel) × (p.steps ≡ pair)
          × ((add_parallel_group no_groups_yet pair).0.step_groups ≡ p ∷ [])))
    ⊎ ((¬ (AllNew [] pair))
        × ((n : Text) × ((add_parallel_group no_groups_yet pair).1 ≡ some (name_conflict n))
            × In n (step_list_names pair))
        × ((add_parallel_group no_groups_yet pair).0.step_groups ≡ []))
add_parallel_group_example = add_parallel_group_lem no_groups_yet pair no_groups_yet-IsTracked

-- A step and a second one of the same name.
abbrev repeated : List Step
repeated = (echo ∷ []) ++ echo ∷ []

add_parallel_group-leaks_example :
    ((add_parallel_group no_groups_yet repeated).1 ≡ some (name_conflict echo.name))
    × ((add_parallel_group no_groups_yet repeated).0.step_groups ≡ [])
    × ((b : Step)
        → In b.name (step_list_names (echo ∷ []))
        → (add_sequential_step (add_parallel_group no_groups_yet repeated).0 b).1
          ≡ some (name_conflict b.name))
unfolding AllNew
add_parallel_group-leaks_example =
    add_parallel_group-leaks no_groups_yet (echo ∷ []) [] echo no_groups_yet-IsTracked
      ((λ h. h), tt) (inl (inl refl))
