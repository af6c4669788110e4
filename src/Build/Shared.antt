-- ===== src/Build/Shared.antt =====
-- The shared sub-builders of build_helpers.go, RetryStrategy of parameter.go, and
-- validateTemplateReference of template_ref_validation.go.
use theo_forge.Prelude.{
  ℕ, ◌+◌, Bool, not, decimal, Text, text, String, Option, none, some, List, [], ◌∷◌, map, is_empty,
  is_some, ◌&&◌, eqb, if◌then◌else◌, Result, ok, err, wrap, wrapping, traverse, template_missing,
  template_ambiguous, ◌>>=◌,
}
use theo_forge.Int.{ℤ, decimal_int}
use theo_forge.Model.Basic.{
  StringMap, Any, str, int, int_ptr, float, float_ptr, nil, TemplateRef, EnvVarModel, MetadataModel,
  Metric, MetricsModel, Backoff, RetryStrategyModel, ParameterModel, parameter_named,
}
use theo_forge.Model.Artifacts.{ArtifactModel, ArgumentsModel, InputsModel, OutputsModel}
use theo_forge.Model.Volumes.{VolumeMountModel}
use theo_forge.Build.Interfaces.{Templatable, EnvBuilder, VolumeBuilder}
use theo_forge.Build.Parameters.{Parameter, as_input, as_output, as_argument}
use theo_forge.Build.Artifacts.{ArtifactBuilder}

-- `for _, p := range params { m, err := f(p); if err != nil { return fmt.Errorf(format, p.Name, err) } … }`
unfoldable pub parameters_with :
    (Parameter → Result ParameterModel) → String → List Parameter → Result (List ParameterModel)
parameters_with f format params = traverse (λ p. wrapping format (p.name ∷ []) (f p)) params

unfoldable pub artifacts_with : String → List ArtifactBuilder → Result (List ArtifactModel)
artifacts_with format artifacts = traverse (λ a. wrapping format [] a.build) artifacts

unfoldable pub build_inputs_from_params :
    List Parameter → List ArtifactBuilder → Result (Option InputsModel)
unfolding parameters_with artifacts_with
build_inputs_from_params params artifacts = do
  ps ← parameters_with as_input "input parameter %q: %w" params
  arts ← artifacts_with "input artifact: %w" artifacts
  if is_empty ps && is_empty arts
      then ok none
      else ok (some (record { parameters = ps; artifacts = arts }))

unfoldable pub build_outputs_from_params :
    List Parameter → List ArtifactBuilder → Result (Option OutputsModel)
unfolding parameters_with artifacts_with
build_outputs_from_params params artifacts = do
  ps ← parameters_with as_output "output parameter %q: %w" params
  arts ← artifacts_with "output artifact: %w" artifacts
  if is_empty ps && is_empty arts
      then ok none
      else ok (some (record { parameters = ps; artifacts = arts; exit_code = [] }))

unfoldable pub build_env_vars : List EnvBuilder → List EnvVarModel
build_env_vars envs = map (λ e. e.build) envs

unfoldable pub build_volume_mount_models : List VolumeBuilder → List VolumeMountModel
build_volume_mount_models volumes = map (λ v. v.build_volume_mount) volumes

unfoldable pub build_metadata_model : StringMap → StringMap → Option MetadataModel
build_metadata_model labels annotations =
    if is_empty labels && is_empty annotations
    then none
    else some (record { labels = labels; annotations = annotations })

unfoldable pub build_metrics_model : List Metric → Option MetricsModel
build_metrics_model metrics =
    if is_empty metrics then none else some (record { prometheus = metrics })

pub record RetryStrategy : Type 0 where
  pub limit : Option ℤ
  pub retry_policy : Text
  pub backoff : Option Backoff
  pub expression : Text

unfoldable pub new_retry_on_failure : ℤ → Text → Text → Text → RetryStrategy
new_retry_on_failure limit initial factor max_duration = record {
  limit = some limit;
  retry_policy = text "OnFailure";
  backoff =
      some
        (record { duration = initial; factor = str factor; max_duration = max_duration; cap = [] });
  expression = text "asInt(lastRetry.exitCode) != 137";
}

-- The type switch on `b.Factor`; a nil pointer passes unchanged, as `nil`.
unfoldable pub normalize_factor : Any → Any
normalize_factor (int i) = str (decimal_int i)
normalize_factor (int_ptr i) = str (decimal_int i)
normalize_factor (float f) = str f
normalize_factor (float_ptr f) = str f
normalize_factor factor = factor

unfoldable pub build_retry_strategy : RetryStrategy → RetryStrategyModel
unfolding normalize_factor
build_retry_strategy r = record {
  limit = elim r.limit [ none ↦ nil | some i ↦ str (decimal_int i) ];
  retry_policy = r.retry_policy;
  backoff = elim r.backoff [
    | none ↦ none
    | some b ↦ some (record b { factor = normalize_factor b.factor })
  ];
  expression = r.expression;
}

unfoldable pub build_retry_strategy_model : Option RetryStrategy → Option RetryStrategyModel
unfolding build_retry_strategy
build_retry_strategy_model none = none
build_retry_strategy_model (some rs) = some (build_retry_strategy rs)

unfoldable pub build_arguments :
    List Parameter → List ArtifactBuilder → Result (Option ArgumentsModel)
build_arguments params artifacts = if is_empty params && is_empty artifacts then ok none else (do
  ps ← traverse as_argument params
  arts ← traverse (λ a. a.build) artifacts
  ok (some (record { parameters = ps; artifacts = arts })))

-- The map's entries are taken in the order of the list, which Go leaves open.
unfoldable pub build_arguments_from_map : StringMap → Option ArgumentsModel
build_arguments_from_map params =
    if is_empty params
    then none
    else some (record {
      parameters = map (λ e. record (parameter_named e.0) { value = some e.1 }) params;
      artifacts = [];
    })

abbrev pub one_if : Bool → ℕ
one_if b = if b then 1 else 0

unfoldable pub validate_template_reference :
    Text → Option TemplateRef → Option Templatable → Text → Result (Unit {0})
validate_template_reference template template_ref inline who =
    let set =
      one_if (not (is_empty template)) + one_if (is_some template_ref) + one_if (is_some inline) in
    if eqb set 0
    then err (wrap "%s: %w" (who ∷ []) template_missing)
    else if eqb set 1
    then ok tt
    else err (wrap "%s: %w (got %d set)" (who ∷ decimal set ∷ []) template_ambiguous)

-- The arguments of a task or a step: the formats are those of its messages.
unfoldable pub call_arguments :
    String → String → Text → List Parameter → List ArtifactBuilder → Result (Option ArgumentsModel)
call_arguments argument artifact name params artifacts =
    if is_empty params && is_empty artifacts then ok none else (do
      ps ← traverse (λ p. wrapping argument (name ∷ []) (as_argument p)) params
      arts ← traverse (λ a. wrapping artifact (name ∷ []) a.build) artifacts
      ok (some (record { parameters = ps; artifacts = arts })))
