-- ===== src/Serialize/Cluster.antt =====
-- ClusterWorkflowTemplate documents of serialize/serialize.go: which kinds are read back.
use theo_forge.Prelude.{
  true, false, Text, [], ◌∷◌, is_empty, ◌==◌, ==_self, ==_iff, ok, err, errorf, ◌≡◌, refl, ◌⊎◌, inl,
  inr, arith, Bool-cases,
}
use theo_forge.Model.Workflows.{WorkflowTemplateModel}
use theo_forge.Serialize.Documents.{
  Codec, cluster_kind, workflow_template_to_yaml, workflow_template_from_yaml,
  cluster_workflow_template_to_yaml, cluster_workflow_template_from_yaml,
}

-- The kind of a cluster template, or none.
abbrev pub IsClusterKind : Text → Type 0
IsClusterKind kind = (is_empty kind ≡ true) ⊎ (kind ≡ cluster_kind)

IsClusterKind-cases :
    (kind : Text)
    → IsClusterKind kind ⊎ ((is_empty kind ≡ false) × ((kind == cluster_kind) ≡ false))
IsClusterKind-cases kind = elim (Bool-cases (is_empty kind)) [
  | inl e ↦ inl (inl e)
  | inr e ↦ elim (Bool-cases (kind == cluster_kind)) [
    | inl c ↦ inl (inr ((==_iff kind cluster_kind).0 c))
    | inr c ↦ inr (e, c)
  ]
]

neither :
    {kind : Text} → is_empty kind ≡ false → (kind == cluster_kind) ≡ false → ¬ IsClusterKind kind
neither e c (inl a) = ground (arith, a, e)
neither {kind} e c (inr a) = ground (arith, c, (==_iff kind cluster_kind).1 a)

module _ {Dict : Type 0} (codec : Codec Dict) where
  -- A cluster template's document is read back as the template, with its kind filled in if it was
  -- empty; one of another kind is written, but refused when it is read; if the YAML decoder undoes the encoder for it.
  pub cluster_from_yaml-to_yaml :
      (m : WorkflowTemplateModel) (yaml : Text)
      → ((kind : Text)
          → codec.yaml_marshal_template (record m { kind = kind }) ≡ ok yaml
          → codec.yaml_unmarshal_template yaml ≡ ok (record m { kind = kind }))
      → cluster_workflow_template_to_yaml codec m ≡ ok yaml
      → (IsClusterKind m.kind
          × (cluster_workflow_template_from_yaml codec yaml
              ≡ ok (record m { kind = cluster_kind })))
        ⊎ ((¬ IsClusterKind m.kind)
            × (cluster_workflow_template_from_yaml codec yaml
                ≡ err (
                    errorf "serialize: expected Kind=ClusterWorkflowTemplate, got %q"
                      (m.kind ∷ []))))
  unfolding cluster_workflow_template_to_yaml cluster_workflow_template_from_yaml
      workflow_template_to_yaml workflow_template_from_yaml
  cluster_from_yaml-to_yaml m yaml decodes h = elim (IsClusterKind-cases m.kind) [
    | inl (inl e) ↦
        let back = decodes cluster_kind (rw e at h) in
        inl (inl e, rw (back, ==_self cluster_kind) refl)
    | inl (inr c) ↦
        let back = decodes cluster_kind (rw c at h) in
        inl (inr c, rw (back, ==_self cluster_kind) refl)
    | inr (e, c) ↦
        let back = decodes m.kind (rw e at h) in inr (λ k. neither e c k, rw (back, e, c) refl)
  ]
