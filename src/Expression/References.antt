-- ===== src/Expression/References.antt =====
-- expr/expr.go: the roots of expressions, and references to parameters.
use theo_forge.Prelude.{Text, text, ◌++◌}
use theo_forge.Expression.Terms.{Expr, render}

unfoldable pub string : Expr → Text
string e = e.repr

unfoldable pub eq : Expr → Text
eq e = render e

unfoldable pub tasks : Text → Expr
tasks name = record { repr = text "tasks." ++ name }

unfoldable pub steps : Text → Expr
steps name = record { repr = text "steps." ++ name }

unfoldable pub inputs : Expr
inputs = record { repr = text "inputs" }

unfoldable pub outputs : Expr
outputs = record { repr = text "outputs" }

unfoldable pub item : Expr
item = record { repr = text "item" }

unfoldable pub workflow : Expr
workflow = record { repr = text "workflow" }

unfoldable pub param_ref : Text → Text
param_ref path = text "{{" ++ (path ++ text "}}")

unfoldable pub input_param : Text → Text
input_param name = text "{{inputs.parameters." ++ (name ++ text "}}")

unfoldable pub task_output_param : Text → Text → Text
task_output_param task_name param_name =
    text "{{tasks." ++ (task_name ++ (text ".outputs.parameters." ++ (param_name ++ text "}}")))

unfoldable pub step_output_param : Text → Text → Text
step_output_param step_name param_name =
    text "{{steps." ++ (step_name ++ (text ".outputs.parameters." ++ (param_name ++ text "}}")))

unfoldable pub task_output_result : Text → Text
task_output_result task_name = text "{{tasks." ++ (task_name ++ text ".outputs.result}}")

unfoldable pub step_output_result : Text → Text
step_output_result step_name = text "{{steps." ++ (step_name ++ text ".outputs.result}}")

unfoldable pub workflow_param : Text → Text
workflow_param name = text "{{workflow.parameters." ++ (name ++ text "}}")
