-- ===== src/Serialize/Writing.antt =====
-- The files that serialize/serialize.go and file_io_helpers.go write, and read back.
use theo_forge.Prelude.{
  ℕ, Option, none, take, is_empty, if◌then◌else◌, true, Text, text, some, List, [], ◌∷◌, ◌++◌,
  ==_self, Result, ok, err, Error, wrap, >>=-eq-ok, Result-cases, ◌≡◌, refl, ◌⊎◌, inl, inr, arith,
}
use theo_forge.Units.Resources.{Floats}
use theo_forge.Config.Global.{GlobalConfig}
use theo_forge.Model.Workflows.{WorkflowModel}
use theo_forge.Workflow.Resource.{Workflow, build}
use theo_forge.Workflow.Rendering.{to_yaml}
use theo_forge.Serialize.Documents.{Codec, workflow_to_yaml}
use theo_forge.Serialize.Filepath.{is_abs, clean, abs}
use theo_forge.Serialize.Files.{
  Disk, System, write_contained, make_directory, write, write_partly, read, find_file,
  workflow_file_name, with_suffix, workflow_to_file, cluster_workflow_template_to_file,
  workflow_from_file, from_file, to_file,
}
use theo_forge.Serialize.Segments.{clean-rooted}
use theo_forge.Serialize.Contained.{IsContained, contained_join-cases}

make_directory-cases :
    (sys : System) (dir : Text) (d : Disk)
    → (make_directory sys dir d ≡ (ok tt, record d { made = dir ∷ d.made }))
      ⊎ ((e : Error) × (make_directory sys dir d ≡ (err e, d)))
unfolding make_directory
make_directory-cases sys dir d = elim (Result-cases (sys.mkdir_all d dir)) [
  | inl (done, e) ↦ inl (rw (e, make_directory) refl)
  | inr (f, e) ↦ inr (wrap "create output directory: %w" [] f, rw (e, make_directory) refl)
]

write-cases :
    (sys : System) (path yaml : Text) (d : Disk)
    → (write sys path yaml d ≡ (ok tt, record d { files = (path, yaml) ∷ d.files }))
      ⊎ ((e : Error) × (write sys path yaml d
            ≡ (err e, write_partly (sys.kept d path) path yaml d)))
unfolding write
write-cases sys path yaml d = elim (Result-cases (sys.write_file d path)) [
  | inl (done, e) ↦ inl (rw (e, write) refl)
  | inr (f, e) ↦ inr (wrap "write file: %w" [] f, rw (e, write) refl)
]

partly-cases :
    (kept : Option ℕ) (path yaml : Text) (d : Disk)
    → ((write_partly kept path yaml d).files ≡ d.files)
      ⊎ ((n : ℕ) × ((write_partly kept path yaml d).files ≡ (path, take n yaml) ∷ d.files))
unfolding write_partly
partly-cases none path yaml d = inl refl
partly-cases (some n) path yaml d = inr (n, refl)

-- A file that has been written: into the directory that `output_dir` names, once it has been made and its links followed.
pub record IsFiled (sys : System) (output_dir name p : Text) (d : Disk) : Type 0 where
  pub abs_dir : Text
  pub absolute : abs sys.getwd output_dir ≡ ok abs_dir
  pub contained : IsContained sys (record d { made = abs_dir ∷ d.made }) abs_dir name p

-- What is returned and what is on the disk: the path of the one file written, with the whole document, or an
-- error, and no file written, or a beginning of the document written to one. The path is, as a text,
-- below the directory.
abbrev pub IsWritten : System → Text → Text → Text → Disk → Result Text × Disk → Type 0
IsWritten sys yaml output_dir name d r =
    ((p : Text) × (r.0 ≡ ok p)
      × (r.1.files ≡ (p, yaml) ∷ d.files)
      × IsFiled sys output_dir name p d)
    ⊎ ((e : Error) × (r.0 ≡ err e)
        × ((r.1.files ≡ d.files)
            ⊎ ((p : Text) × (n : ℕ) × (r.1.files ≡ (p, take n yaml) ∷ d.files)
                × IsFiled sys output_dir name p d)))

module _ (sys : System) (started : (wd : Text) → sys.getwd ≡ ok wd → is_abs wd ≡ true)
    (followed : (d : Disk) (dir r : Text)
      → is_abs dir ≡ true
      → sys.eval_symlinks d dir ≡ ok r
      → (is_abs r ≡ true) × (clean r ≡ r)) where
  write_contained-IsWritten :
      (yaml output_dir file_name : Text) (d : Disk)
      → IsWritten sys yaml output_dir file_name d (write_contained sys yaml output_dir file_name d)
  unfolding write_contained
  write_contained-IsWritten yaml output_dir file_name d =
      elim (Result-cases (abs sys.getwd output_dir)) [
        | inr (f, e) ↦ inr (wrap "resolve output directory: %w" [] f, rw e refl, inl (rw e refl))
        | inl (abs_dir, e) ↦ elim (make_directory-cases sys abs_dir d) [
          | inr (f, m) ↦ inr (f, rw (e, m) refl, inl (rw (e, m) refl))
          | inl m ↦
              let made : Disk = record d { made = abs_dir ∷ d.made } in
              elim (contained_join-cases sys started followed abs_dir file_name made) [
                | inr (f, j) ↦ inr (f, rw (e, m, j) refl, inl (rw (e, m, j) refl))
                | inl (p, j, k) ↦
                    let filed : IsFiled sys output_dir file_name p d = record {
                      abs_dir = abs_dir;
                      absolute = e;
                      contained = k;
                    } in
                    elim (write-cases sys p yaml made) [
                      | inr (f, w) ↦ inr (
                        f,
                        rw (e, m, j, w) refl,
                        elim (partly-cases (sys.kept made p) p yaml made) [
                          | inl same ↦ inl (rw (e, m, j, w) same)
                          | inr (n, same) ↦ inr (p, n, rw (e, m, j, w) same, filed)
                        ],
                      )
                      | inl w ↦ inl (p, rw (e, m, j, w) refl, rw (e, m, j, w) refl, filed)
                    ]
              ]
        ]
      ]

  -- `WorkflowToFile` and `ClusterWorkflowTemplateToFile` write the document to one file and return its path, or
  -- return an error, and then write nothing, or a beginning of the document to one file. The path of that file,
  -- its symbolic links aside, is below the directory that they are given, once the links of that are
  -- followed.
  pub workflow_to_file-IsWritten :
      (yaml output_dir file_name wf_name generate_name : Text) (d : Disk)
      → IsWritten sys yaml output_dir
          (with_suffix (workflow_file_name file_name wf_name generate_name))
          d
          (workflow_to_file sys yaml output_dir file_name wf_name generate_name d)
        × IsWritten sys yaml output_dir
            (with_suffix (if is_empty file_name then wf_name ++ text ".yaml" else file_name))
            d
            (cluster_workflow_template_to_file sys yaml output_dir file_name wf_name d)
  unfolding workflow_to_file cluster_workflow_template_to_file
  workflow_to_file-IsWritten yaml output_dir file_name wf_name generate_name d =
      (write_contained-IsWritten yaml output_dir _ d, write_contained-IsWritten yaml output_dir _ d)

module _ {Dict : Type 0} (codec : Codec Dict) (sys : System)
    (started : (wd : Text) → sys.getwd ≡ ok wd → is_abs wd ≡ true)
    (followed : (d : Disk) (dir r : Text)
      → is_abs dir ≡ true
      → sys.eval_symlinks d dir ≡ ok r
      → (is_abs r ≡ true) × (clean r ≡ r))
    (fl : Floats) where
  find_file-first :
      (q yaml : Text) (rest : List (Text × Text)) → find_file ((q, yaml) ∷ rest) q ≡ some yaml
  unfolding find_file
  find_file-first q yaml rest = rw (==_self q) refl

  read-written :
      (q yaml : Text) (rest : List (Text × Text)) (d : Disk)
      → d.files ≡ (q, yaml) ∷ rest
      → read sys q d ≡ ok yaml
  unfolding read
  read-written q yaml rest d files = rw (files, find_file-first q yaml rest, read) refl

  from_file-written :
      (q yaml : Text) (m : WorkflowModel) (rest : List (Text × Text)) (d : Disk)
      → clean q ≡ q
      → d.files ≡ (q, yaml) ∷ rest
      → codec.yaml_unmarshal_workflow yaml ≡ ok m
      → (from_file codec sys q d).0 ≡ ok m
  unfolding from_file workflow_from_file
  from_file-written q yaml m rest d cleaned files decoded =
      let back = read-written q yaml rest d files in rw (cleaned, back, decoded) refl

  to_file-workflow_to_file :
      (global : GlobalConfig) (w : Workflow) (output_dir name yaml : Text) (d : Disk)
      → to_yaml codec fl global w ≡ ok yaml
      → to_file codec sys fl global w output_dir name d
        ≡ workflow_to_file sys yaml output_dir name w.name w.generate_name d
  unfolding to_file
  to_file-workflow_to_file global w output_dir name yaml d e = rw e refl

  to_file-err :
      (global : GlobalConfig) (w : Workflow) (output_dir name : Text) (d : Disk) (e : Error)
      → to_yaml codec fl global w ≡ err e
      → (to_file codec sys fl global w output_dir name d).0 ≡ err e
  unfolding to_file
  to_file-err global w output_dir name d e f = rw f refl

  -- What `ToFile` writes, `FromFile` reads back: from the path that it has returned, the model that `Build`
  -- gives, if the YAML decoder undoes the encoder.
  pub from_file-to_file :
      (global : GlobalConfig) (w : Workflow) (output_dir name p : Text) (d : Disk)
      → ((m : WorkflowModel) (yaml : Text)
          → build fl global w ≡ ok m
          → codec.yaml_marshal_workflow m ≡ ok yaml
          → codec.yaml_unmarshal_workflow yaml ≡ ok m)
      → (to_file codec sys fl global w output_dir name d).0 ≡ ok p
      → (m : WorkflowModel) × (build fl global w ≡ ok m)
        × ((from_file codec sys p (to_file codec sys fl global w output_dir name d).1).0 ≡ ok m)
  unfolding to_yaml workflow_to_yaml
  from_file-to_file global w output_dir name p d decodes h =
      elim (Result-cases (to_yaml codec fl global w)) [
        | inr (e, f) ↦ ground (arith, h, to_file-err global w output_dir name d e f)
        | inl (yaml, one) ↦
            let (m, built, encoded) = >>=-eq-ok (build fl global w) _ one in
            let same = to_file-workflow_to_file global w output_dir name yaml d one in
            elim ((workflow_to_file-IsWritten sys started followed yaml output_dir name w.name
              w.generate_name d).0) [
                | inr (e, out, files) ↦ ground (arith, out, h, same)
                | inl (q, out, files, filed) ↦
                    let path : q ≡ p = ground (arith, out, h, same) in
                    let inside = filed.contained.inside in
                    let cleaned : clean q ≡ q =
                      rw inside.path (clean-rooted (inside.elements ++ inside.more) inside.below) in
                    (
                      m,
                      built,
                      rw (same, ← path)
                          (from_file-written q yaml m d.files _ cleaned files
                            (decodes m yaml built encoded)),
                    )
              ]
      ]
