-- ===== src/Examples/Clients.antt =====
-- Names and paths of the client, literals of expressions, a status, and a container set.
use theo_forge.Prelude.{Text, text, none, some, List, [], ◌∷◌, map, ◌≡◌, refl, ◌↔◌, All, ok, true}
use theo_forge.Model.Templates.{TemplateModel, template, fields_named, no_dag, no_groups}
use theo_forge.Model.Workflows.{NodeStatus, WorkflowStatusDetail}
use theo_forge.Build.Kinds.{ContainerNode, ContainerSet, build_container_set, build_model}
use theo_forge.Build.Nodes.{containers_of, build_container_set-dependencies}
use theo_forge.Build.Shared.{
  build_inputs_from_params, build_outputs_from_params, parameters_with, artifacts_with,
  build_volume_mount_models, build_retry_strategy_model,
}
use theo_forge.Prelude.{traverse, inl, inr}
use theo_forge.Client.Names.{
  validate_k8s_name, workflow_path, validate_k8s_namespace, check_k8s, match_from, next, accepting,
  is_alnum,
}
use theo_forge.Client.Paths.{workflow_path-injective}
use theo_forge.Expression.Terms.{Expr, str, constant, contains, matches, starts_with, ends_with}
use theo_forge.Expression.Literals.{HasLiteral, literal_lem}
use theo_forge.Status.{
  all_pod_nodes_exited_zero, HasPod, PodsExitZero, all_pod_nodes_exited_zero_iff,
}
use theo_forge.Status.Unordered.{
  Nodes, SameEntries, with_nodes, all_pod_nodes_exited_zero-SameEntries,
}

-- An escaping that changes nothing.
abbrev kept : Text → Text
kept s = s

hello_path :
    workflow_path kept (text "argo") (text "hello") ≡ ok (text "/api/v1/workflows/argo/hello")
unfolding workflow_path validate_k8s_name validate_k8s_namespace check_k8s match_from next accepting
    is_alnum
hello_path = refl

workflow_path-injective_example : (text "argo" ≡ text "argo") × (text "hello" ≡ text "hello")
workflow_path-injective_example =
    workflow_path-injective kept (λ s h. refl) (text "argo") (text "hello") (text "argo")
      (text "hello") (text "/api/v1/workflows/argo/hello") hello_path hello_path

abbrev tasks : Expr
tasks = record { repr = text "tasks.a" }

literal_example :
    HasLiteral (constant (str (text "it's"))).repr [] (text "it's") []
    × HasLiteral
        (contains tasks (text "it's")).repr
        (text "tasks.a.contains(")
        (text "it's")
        (text ")")
    × HasLiteral
        (matches tasks (text "it's")).repr
        (text "tasks.a.matches(")
        (text "it's")
        (text ")")
    × HasLiteral
        (starts_with tasks (text "it's")).repr
        (text "tasks.a.startsWith(")
        (text "it's")
        (text ")")
    × HasLiteral
        (ends_with tasks (text "it's")).repr
        (text "tasks.a.endsWith(")
        (text "it's")
        (text ")")
literal_example = literal_lem tasks (text "it's")

abbrev pod : NodeStatus
pod = record {
  id = text "1";
  name = text "a";
  display_name = text "a";
  type = text "Pod";
  phase = text "Succeeded";
  started_at = [];
  finished_at = [];
  message = [];
  outputs = some (record { parameters = []; artifacts = []; exit_code = text "0" });
  children = [];
  template_name = text "a";
}

abbrev status : WorkflowStatusDetail
status = record {
  phase = text "Succeeded";
  started_at = [];
  finished_at = [];
  message = [];
  nodes = (text "1", pod) ∷ [];
  outputs = none;
}

all_pod_nodes_exited_zero_example :
    (all_pod_nodes_exited_zero (some status) ≡ true)
    ↔ ((s : WorkflowStatusDetail) × (some status ≡ some s) × HasPod s.nodes × PodsExitZero s.nodes)
all_pod_nodes_exited_zero_example = all_pod_nodes_exited_zero_iff (some status)

-- The same pod, under two keys, in the two orders.
abbrev one_two : Nodes
one_two = (text "1", pod) ∷ (text "2", pod) ∷ []

abbrev two_one : Nodes
two_one = (text "2", pod) ∷ (text "1", pod) ∷ []

swapped-SameEntries : SameEntries one_two two_one
swapped-SameEntries e = (
  (λ h. elim h [ inl p ↦ inr (inl p) | inr h ↦ elim h [ inl p ↦ inl p | inr n ↦ elim n [ ] ] ]),
  (λ h. elim h [ inl p ↦ inr (inl p) | inr h ↦ elim h [ inl p ↦ inl p | inr n ↦ elim n [ ] ] ]),
)

all_pod_nodes_exited_zero-SameEntries_example :
    all_pod_nodes_exited_zero (some (with_nodes status one_two))
    ≡ all_pod_nodes_exited_zero (some (with_nodes status two_one))
all_pod_nodes_exited_zero-SameEntries_example =
    all_pod_nodes_exited_zero-SameEntries status one_two two_one swapped-SameEntries

abbrev node : Text → List Text → ContainerNode
node label needed = record {
  name = label;
  image = text "alpine";
  command = [];
  args = [];
  env = [];
  resources = none;
  dependencies = needed;
}

abbrev ordered : ContainerSet
ordered = record {
  name = text "set";
  containers = node (text "a") [] ∷ node (text "b") (text "a" ∷ []) ∷ [];
  inputs = [];
  outputs = [];
  volume_mounts = [];
  retry_strategy = none;
}

abbrev ordered_model : TemplateModel
ordered_model =
    template
      (record (fields_named (text "set")) {
        container_set =
            some (record { containers = map build_model ordered.containers; volume_mounts = [] });
      })
      no_dag no_groups

ordered_built : build_container_set ordered ≡ ok ordered_model
unfolding build_container_set build_inputs_from_params build_outputs_from_params parameters_with
    artifacts_with traverse build_volume_mount_models build_retry_strategy_model
ordered_built = refl

build_container_set-dependencies_example :
    (map (λ c. c.name) (containers_of ordered_model) ≡ text "a" ∷ text "b" ∷ [])
    × All (λ c. c.dependencies ≡ []) (containers_of ordered_model)
build_container_set-dependencies_example = build_container_set-dependencies ordered ordered_built
