-- ===== src/Serialize/Files.antt =====
-- serialize/serialize.go and file_io_helpers.go: documents in the files of a directory.
use theo_forge.Prelude.{
  ℕ, take, Bool, true, not, ◌&&◌, ◌||◌, Text, text, Option, none, some, List, [], ◌∷◌, ◌++◌,
  is_empty, if◌then◌else◌, ◌==◌, has_prefix, has_suffix, trim_suffix, Result, ok, err,
  path_traversal, wrap, wrapping, fail_if,
}
use theo_forge.Effects.{Stateful, lift, current, ◌>>=◌, ◌>>◌}
use theo_forge.Model.Workflows.{WorkflowModel, WorkflowTemplateModel}
use theo_forge.Units.Resources.{Floats}
use theo_forge.Config.Global.{GlobalConfig}
use theo_forge.Workflow.Resource.{Workflow}
use theo_forge.Workflow.Rendering.{to_yaml}
use theo_forge.Serialize.Filepath.{is_abs, clean, join, rel, abs}
use theo_forge.Serialize.Documents.{Codec, cluster_workflow_template_from_yaml}

-- The directories that have been made and the files that have been written, latest first.
pub record Disk : Type 0 where
  pub made : List Text
  pub files : List (Text × Text)

-- What package os and `filepath.EvalSymlinks` answer, with the disk as it stands: a file that the
-- program has not written is read as `read_file` says; a write that fails may have written to the file, and
-- then `kept` says how many of the bytes.
pub record System : Type 0 where
  pub getwd : Result Text
  pub eval_symlinks : Disk → Text → Result Text
  pub mkdir_all : Disk → Text → Result (Unit {0})
  pub write_file : Disk → Text → Result (Unit {0})
  pub kept : Disk → Text → Option ℕ
  pub read_file : Text → Result Text

-- `os.MkdirAll`, with its error wrapped.
unfoldable pub make_directory : System → Text → Stateful Disk (Unit {0})
make_directory sys dir d = elim (sys.mkdir_all d dir) [
  | ok done ↦ (ok tt, record d { made = dir ∷ d.made })
  | err e ↦ (err (wrap "create output directory: %w" [] e), d)
]

-- What a failed `os.WriteFile` leaves: the file as it was, or with some of the bytes.
unfoldable pub write_partly : Option ℕ → Text → Text → Disk → Disk
write_partly none path data_ d = d
write_partly (some n) path data_ d = record d { files = (path, take n data_) ∷ d.files }

-- `os.WriteFile`, with its error wrapped.
unfoldable pub write : System → Text → Text → Stateful Disk (Unit {0})
write sys path data_ d = elim (sys.write_file d path) [
  | ok done ↦ (ok tt, record d { files = (path, data_) ∷ d.files })
  | err e ↦ (err (wrap "write file: %w" [] e), write_partly (sys.kept d path) path data_ d)
]

unfoldable pub find_file : List (Text × Text) → Text → Option Text
find_file [] path = none
find_file ((p, data_) ∷ files) path = if p == path then some data_ else find_file files path

unfoldable pub read : System → Text → Disk → Result Text
read sys path d = elim (find_file d.files path) [
  | some data_ ↦ ok data_
  | none ↦ sys.read_file path
]

-- Whether `Rel` has failed, or leads out of the directory.
unfoldable pub escapes : Result Text → Bool
escapes (err e) = true
escapes (ok r) = (r == text "..") || has_prefix r (text "../")

-- `filepath.EvalSymlinks`, with the path itself where it fails.
unfoldable pub resolved : Text → Result Text → Text
resolved dir (ok r) = r
resolved dir (err e) = dir

unfoldable pub contained_join : System → Text → Text → Stateful Disk Text
contained_join sys dir name = do
  lift (
      fail_if (is_empty name || (name == text ".") || (name == text ".."))
        (wrap "%w: name=%q" (name ∷ []) path_traversal))
  lift (fail_if (is_abs name) (wrap "%w: name is absolute (%q)" (name ∷ []) path_traversal))
  abs_dir ← lift (wrapping "serialize: resolve dir: %w" [] (abs sys.getwd (clean dir)))
  d ← current
  let base = resolved abs_dir (sys.eval_symlinks d abs_dir)
  let joined = clean (join base name)
  lift (
      fail_if (escapes (rel base joined))
        (wrap "%w: name=%q escapes %q" (name ∷ dir ∷ []) path_traversal))
  lift (ok joined)

unfoldable pub with_suffix : Text → Text
with_suffix file_name =
    if not (has_suffix file_name (text ".yaml")) && not (has_suffix file_name (text ".yml"))
    then file_name ++ text ".yaml"
    else file_name

-- What `WorkflowToFile` and `ClusterWorkflowTemplateToFile` do once they have a file name.
unfoldable pub write_contained : System → Text → Text → Text → Stateful Disk Text
write_contained sys yaml output_dir file_name = do
  abs_dir ← lift (wrapping "resolve output directory: %w" [] (abs sys.getwd output_dir))
  make_directory sys abs_dir
  path ← contained_join sys abs_dir file_name
  write sys path yaml
  lift (ok path)

unfoldable pub workflow_file_name : Text → Text → Text → Text
workflow_file_name file_name wf_name generate_name =
    if is_empty file_name
    then (if is_empty wf_name then trim_suffix generate_name (text "-") else wf_name)
      ++ text ".yaml"
    else file_name

unfoldable pub workflow_to_file : System → Text → Text → Text → Text → Text → Stateful Disk Text
workflow_to_file sys yaml output_dir file_name wf_name generate_name =
    write_contained sys yaml output_dir
      (with_suffix (workflow_file_name file_name wf_name generate_name))

unfoldable pub cluster_workflow_template_to_file :
    System → Text → Text → Text → Text → Stateful Disk Text
cluster_workflow_template_to_file sys yaml output_dir file_name name =
    write_contained sys yaml output_dir
      (with_suffix (if is_empty file_name then name ++ text ".yaml" else file_name))

module _ {Dict : Type 0} (codec : Codec Dict) (sys : System) where
  unfoldable pub cluster_workflow_template_from_file : Text → Stateful Disk WorkflowTemplateModel
  cluster_workflow_template_from_file path = do
    d ← current
    data_ ← lift (wrapping "read file: %w" [] (read sys (clean path) d))
    lift (cluster_workflow_template_from_yaml codec data_)

  unfoldable pub workflow_from_file : Text → Stateful Disk WorkflowModel
  workflow_from_file path = do
    d ← current
    data_ ← lift (wrapping "read file: %w" [] (read sys (clean path) d))
    lift (wrapping "unmarshal YAML: %w" [] (codec.yaml_unmarshal_workflow data_))

  -- `FromFile`
  unfoldable pub from_file : Text → Stateful Disk WorkflowModel
  from_file path = workflow_from_file path

  -- `w.ToFile`
  unfoldable pub to_file : Floats → GlobalConfig → Workflow → Text → Text → Stateful Disk Text
  to_file fl global w output_dir name = do
    yaml ← lift (to_yaml codec fl global w)
    workflow_to_file sys yaml output_dir name w.name w.generate_name
