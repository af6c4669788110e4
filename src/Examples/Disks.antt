-- ===== src/Examples/Disks.antt =====
-- Files in a directory, and documents.
use theo_forge.Prelude.{
  none, true, Text, text, [], ◌∷◌, ok, err, errorf, has_prefix, has_suffix, trim_suffix, ◌==◌, ◌≡◌,
  refl, ap, ◌↔◌, ◌⊎◌, arith,
}
use theo_forge.Model.Workflows.{WorkflowModel, WorkflowTemplateModel}
use theo_forge.Config.Global.{new}
use theo_forge.Workflow.Resource.{build}
use theo_forge.Workflow.Rendering.{to_yaml}
use theo_forge.Serialize.Filepath.{
  before_slash, split, join_slash, is_abs, back, enter, walk, reverse_onto, kept, relative_text,
  clean, join, elements, ups, rel_elements, base_elements, rel, abs,
}
use theo_forge.Serialize.Documents.{
  Codec, workflow_to_yaml, cluster_kind, cluster_workflow_template_to_yaml,
  workflow_template_to_yaml, cluster_workflow_template_from_yaml,
}
use theo_forge.Serialize.Files.{
  Disk, System, make_directory, write, escapes, resolved, contained_join, with_suffix,
  write_contained, workflow_file_name, workflow_to_file, cluster_workflow_template_to_file,
  from_file, to_file,
}
use theo_forge.Serialize.Contained.{IsContained, contained_join_iff}
use theo_forge.Serialize.Writing.{IsWritten, workflow_to_file-IsWritten, from_file-to_file}
use theo_forge.Serialize.Cluster.{IsClusterKind, cluster_from_yaml-to_yaml}
use theo_forge.Examples.Floating.{fixed}
use theo_forge.Examples.Resources.{hello, hello_model, hello-built}

-- A system without links, on which everything can be written.
abbrev plain_system : System
plain_system = record {
  getwd = ok (text "/home");
  eval_symlinks = λ d dir. err (errorf "not found" []);
  mkdir_all = λ d dir. ok tt;
  write_file = λ d path. ok tt;
  kept = λ d path. none;
  read_file = λ path. err (errorf "not found" []);
}

started : (wd : Text) → plain_system.getwd ≡ ok wd → is_abs wd ≡ true
unfolding is_abs
started wd h = let same : text "/home" ≡ wd = ground (arith, h) in rw (← same) refl

followed :
    (d : Disk) (dir r : Text)
    → is_abs dir ≡ true
    → plain_system.eval_symlinks d dir ≡ ok r
    → (is_abs r ≡ true) × (clean r ≡ r)
followed d dir r h k = ground (arith, k)

abbrev empty_disk : Disk
empty_disk = record { made = []; files = [] }

contained_join_example :
    ((contained_join plain_system (text "out") (text "a/../b.yaml") empty_disk).0
      ≡ ok (text "/home/out/b.yaml"))
    ↔ IsContained plain_system empty_disk
        (text "out")
        (text "a/../b.yaml")
        (text "/home/out/b.yaml")
contained_join_example =
    contained_join_iff plain_system started followed (text "out") (text "a/../b.yaml")
      (text "/home/out/b.yaml") empty_disk

workflow_to_file-IsWritten_example :
    IsWritten plain_system
      (text "kind: Workflow")
      (text "out")
      (with_suffix (workflow_file_name [] (text "a") []))
      empty_disk
      (workflow_to_file plain_system
        (text "kind: Workflow")
        (text "out")
        []
        (text "a")
        []
        empty_disk)
    × IsWritten plain_system
        (text "kind: Workflow")
        (text "out")
        (with_suffix (text "a.yaml"))
        empty_disk
        (cluster_workflow_template_to_file plain_system
          (text "kind: Workflow")
          (text "out")
          []
          (text "a")
          empty_disk)
workflow_to_file-IsWritten_example =
    workflow_to_file-IsWritten plain_system started followed (text "kind: Workflow") (text "out") []
      (text "a") [] empty_disk

abbrev cluster_template : WorkflowTemplateModel
cluster_template = record {
  api_version = [];
  kind = [];
  metadata = hello_model.metadata;
  spec = hello_model.spec;
}

-- A codec that writes of a template its kind, and of a workflow nothing.
abbrev narrow : Codec Text
narrow = record {
  yaml_marshal_workflow = λ m. ok (text "workflow");
  yaml_marshal_template = λ m. ok m.kind;
  yaml_marshal_cron = λ m. ok (text "cron");
  yaml_unmarshal_workflow = λ yaml. ok hello_model;
  yaml_unmarshal_template = λ yaml. ok (record cluster_template { kind = yaml });
  yaml_unmarshal_cron = λ yaml. err (errorf "cron" []);
  json_marshal_workflow = λ m. ok (text "{}");
  json_indent_workflow = λ m. ok (text "{}");
  json_indent_cron = λ m. ok (text "{}");
  json_unmarshal_workflow = λ json. ok hello_model;
  json_unmarshal_dict = λ json. ok json;
}

cluster-written : cluster_workflow_template_to_yaml narrow cluster_template ≡ ok cluster_kind
unfolding cluster_workflow_template_to_yaml workflow_template_to_yaml
cluster-written = refl

cluster_from_yaml-to_yaml_example :
    (IsClusterKind []
      × (cluster_workflow_template_from_yaml narrow cluster_kind
          ≡ ok (record cluster_template { kind = cluster_kind })))
    ⊎ ((¬ IsClusterKind [])
        × (cluster_workflow_template_from_yaml narrow cluster_kind
            ≡ err (errorf "serialize: expected Kind=ClusterWorkflowTemplate, got %q" ([] ∷ []))))
cluster_from_yaml-to_yaml_example =
    cluster_from_yaml-to_yaml narrow cluster_template cluster_kind
      (λ kind h. let same : kind ≡ cluster_kind = ground (arith, h) in rw same refl) cluster-written

hello-decoded :
    (m : WorkflowModel) (yaml : Text)
    → build fixed new hello ≡ ok m
    → narrow.yaml_marshal_workflow m ≡ ok yaml
    → narrow.yaml_unmarshal_workflow yaml ≡ ok m
hello-decoded m yaml h k = let same : hello_model ≡ m = cc (hello-built, h) in ap ok same

hello-path :
    (to_file narrow plain_system fixed new hello (text "/out") [] empty_disk).0
    ≡ ok (text "/out/hello.yaml")
unfolding to_file to_yaml workflow_to_yaml workflow_to_file workflow_file_name with_suffix
    write_contained make_directory write contained_join escapes resolved before_slash split
    join_slash is_abs back enter walk reverse_onto kept relative_text clean join elements ups
    rel_elements base_elements rel abs has_prefix has_suffix trim_suffix ◌==◌
hello-path = rw hello-built refl

from_file-to_file_example :
    (m : WorkflowModel) × (build fixed new hello ≡ ok m)
    × ((from_file narrow plain_system
          (text "/out/hello.yaml")
          (to_file narrow plain_system fixed new hello (text "/out") [] empty_disk).1).0
        ≡ ok m)
from_file-to_file_example =
    from_file-to_file narrow plain_system started followed fixed new hello (text "/out") []
      (text "/out/hello.yaml") empty_disk hello-decoded hello-path
