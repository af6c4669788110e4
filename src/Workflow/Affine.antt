-- ===== src/Workflow/Affine.antt =====
-- affinity.go: the pod affinity that keeps the pods of a workflow on one node.
use theo_forge.Prelude.{Text, text, none, some, [], ◌∷◌}
use theo_forge.Model.Containers.{Affinity}

abbrev pub workflow_label_key : Text
workflow_label_key = text "workflows.argoproj.io/workflow"

abbrev pub hostname_topology_key : Text
hostname_topology_key = text "kubernetes.io/hostname"

unfoldable pub colocate_by_label : Text → Text → Text → Affinity
colocate_by_label label_key label_value topology_key = record {
  node_affinity = none;
  pod_affinity = some (record {
    required =
        record {
          label_selector =
              some
                (record { match_labels = (label_key, label_value) ∷ []; match_expressions = [] });
          topology_key = topology_key;
          namespaces = [];
        }
        ∷ [];
    preferred = [];
  });
  pod_anti_affinity = none;
}
