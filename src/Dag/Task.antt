-- ===== src/Dag/Task.antt =====
-- The type Task of dag.go, the references to its outputs, and the methods that write `Depends`.
use theo_forge.Prelude.{
  ℕ, suc, ◌-◌, Bool, true, false, ◌&&◌, Text, text, Option, List, [], ◌∷◌, ◌++◌, eqb, is_empty,
  if◌then◌else◌,
}
use theo_forge.Model.Basic.{TemplateRef, ContinueOn, Any, Sequence}
use theo_forge.Model.Templates.{LifecycleHook}
use theo_forge.Build.Parameters.{Parameter}
use theo_forge.Build.Artifacts.{ArtifactBuilder}
use theo_forge.Build.Interfaces.{Templatable}

-- The results that a dependency can wait for.
pub data TaskResult : Type 0 where
  failed succeeded errored skipped omitted daemoned any_succeeded all_failed : TaskResult

abbrev pub result_text : TaskResult → Text
result_text failed = text "Failed"
result_text succeeded = text "Succeeded"
result_text errored = text "Errored"
result_text skipped = text "Skipped"
result_text omitted = text "Omitted"
result_text daemoned = text "Daemoned"
result_text any_succeeded = text "AnySucceeded"
result_text all_failed = text "AllFailed"

pub record Task : Type 0 where
  pub name : Text
  pub template : Text
  pub template_ref : Option TemplateRef
  pub dependencies : List Text
  pub depends : Text
  pub arguments : List Parameter
  pub argument_artifacts : List ArtifactBuilder
  pub when : Text
  pub continue_on : Option ContinueOn
  pub with_items : List Any
  pub with_param : Text
  pub with_sequence : Option Sequence
  pub inline : Option Templatable
  pub on_exit : Text
  pub hooks : List (Text × LifecycleHook)

unfoldable pub get_output_parameter : Task → Text → Text
get_output_parameter t param_name =
    text "{{tasks." ++ (t.name ++ (text ".outputs.parameters." ++ (param_name ++ text "}}")))

unfoldable pub get_output_result : Task → Text
get_output_result t = text "{{tasks." ++ (t.name ++ text ".outputs.result}}")

unfoldable pub get_output_artifact : Task → Text → Text
get_output_artifact t artifact_name =
    text "{{tasks." ++ (t.name ++ (text ".outputs.artifacts." ++ (artifact_name ++ text "}}")))

-- `i+1 < len(expr) && expr[i+1] == '|'`
abbrev pub bar_follows : Text → Bool
bar_follows [] = false
bar_follows (c ∷ rest) = eqb c b'|'

-- `depth` after the byte `c`
abbrev pub depth_after : ℕ → ℕ → ℕ
depth_after c depth = if eqb c b'(' then suc depth else if eqb c b')' then depth - 1 else depth

-- The loop of `containsTopLevelOr` from a byte on.
unfoldable pub scan : ℕ → Text → Bool
scan depth [] = false
scan depth (c ∷ rest) =
    if eqb c b'|' && eqb depth 0 && bar_follows rest then true else scan (depth_after c depth) rest

unfoldable pub contains_top_level_or : Text → Bool
contains_top_level_or expr = scan 0 expr

unfoldable pub needs_parens : Text → Bool
unfolding contains_top_level_or
needs_parens expr = contains_top_level_or expr

-- `t.Then(other)`: the new state of `other`.
unfoldable pub then_task : Task → Task → Task
then_task t other =
    if is_empty other.depends
    then record other { depends = t.name }
    else (let prev : Text =
          if needs_parens other.depends
          then b'(' ∷ (other.depends ++ text ")")
          else other.depends in
        record other { depends = prev ++ (text " && " ++ t.name) })

unfoldable pub or_task : Task → Task → Text
or_task t other = b'(' ∷ (t.name ++ (text " || " ++ (other.name ++ text ")")))

on_result : TaskResult → Task → Task → Task
on_result r t other = record t { depends = other.name ++ (text "." ++ result_text r) }

unfoldable pub on_success : Task → Task → Task
unfolding on_result
on_success t other = on_result succeeded t other

unfoldable pub on_failure : Task → Task → Task
unfolding on_result
on_failure t other = on_result failed t other

unfoldable pub on_error : Task → Task → Task
unfolding on_result
on_error t other = on_result errored t other
