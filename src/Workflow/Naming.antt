-- ===== src/Workflow/Naming.antt =====
-- Which workflows `validate` of workflow.go accepts, and which affinity `resolveAffinity` chooses.
use theo_forge.Prelude.{
  ◌≤◌, Bool, true, false, not, ◌&&◌, Text, text, Option, none, some, List, [], ◌∷◌, is_empty,
  is_some, length, ltb, if◌then◌else◌, ok, Error, fail_if, ◌>>◌, ◌≡◌, ◌≢◌, refl, ◌↔◌, ◌⊎◌, inl, inr,
  arith, Bool-cases, Option-cases,
}
use theo_forge.Model.Containers.{Affinity}
use theo_forge.Workflow.Affine.{colocate_by_label, workflow_label_key, hostname_topology_key}
use theo_forge.Workflow.Resource.{
  Workflow, validate, name_limit, resolve_affinity, default_pod_affinity_for,
}

-- A workflow that can be submitted.
pub record IsValid (w : Workflow) : Type 0 where
  pub name_fits : length w.name ≤ 63
  pub generate_name_fits : length w.generate_name ≤ 63
  pub named : (w.name ≢ []) ⊎ (w.generate_name ≢ [])
  pub entered : w.templates ≢ [] → w.entrypoint ≡ [] → w.workflow_template_ref ≢ none

limit_iff : (t : Text) → ((not (is_empty t) && ltb name_limit (length t)) ≡ false) ↔ (length t ≤ 63)
limit_iff [] = ground arith
limit_iff (c ∷ t) = ground arith

named_iff : (a b : Text) → ((is_empty a && is_empty b) ≡ false) ↔ ((a ≢ []) ⊎ (b ≢ []))
named_iff [] [] =
    (λ h. ground (arith, h), λ h. elim h [ inl n ↦ elim (n refl) [ ] | inr n ↦ elim (n refl) [ ] ])
named_iff (c ∷ a) b = (λ h. inl (λ q. ground (arith, q)), λ h. refl)
named_iff [] (c ∷ b) = (λ h. inr (λ q. ground (arith, q)), λ h. refl)

entered_iff :
    {A B : Type 0} (ts : List A) (e : Text) (r : Option B)
    → ((not (is_empty ts) && (is_empty e && not (is_some r))) ≡ false)
      ↔ (ts ≢ [] → e ≡ [] → r ≢ none)
entered_iff [] e r = (λ _ n. elim (n refl) [ ], λ _. refl)
entered_iff (t ∷ ts) [] none =
    (λ h. ground (arith, h), λ h. elim (h (λ q. ground (arith, q)) refl refl) [ ])
entered_iff (t ∷ ts) [] (some r) = (λ _ _ _ q. ground (arith, q), λ _. refl)
entered_iff (t ∷ ts) (c ∷ e) r = (λ _ _ q. ground (arith, q), λ _. refl)

guards_iff :
    (a b c d : Bool) (ea eb ec ed : Error)
    → ((do fail_if a ea; fail_if b eb; fail_if c ec; fail_if d ed) ≡ ok tt)
      ↔ ((a ≡ false) × (b ≡ false) × (c ≡ false) × (d ≡ false))
guards_iff true b c d ea eb ec ed = ground arith
guards_iff false true c d ea eb ec ed = ground arith
guards_iff false false true d ea eb ec ed = ground arith
guards_iff false false false true ea eb ec ed = ground arith
guards_iff false false false false ea eb ec ed = ground arith

-- A workflow is accepted exactly if its names have at most 63 bytes, one of them is not empty, and
-- it has an entrypoint if it has templates and no reference to a WorkflowTemplate.
pub validate_iff : (w : Workflow) → (validate w ≡ ok tt) ↔ IsValid w
unfolding validate
validate_iff w =
    let all = guards_iff _ _ _ _ _ _ _ _ in
    (
      λ h.
          let (a, b, c, d) = all.0 h in
          record {
            name_fits = (limit_iff w.name).0 a;
            generate_name_fits = (limit_iff w.generate_name).0 b;
            named = (named_iff w.name w.generate_name).0 c;
            entered = (entered_iff w.templates w.entrypoint w.workflow_template_ref).0 d;
          },
      λ v. all.1 (
        (limit_iff w.name).1 v.name_fits,
        (limit_iff w.generate_name).1 v.generate_name_fits,
        (named_iff w.name w.generate_name).1 v.named,
        (entered_iff w.templates w.entrypoint w.workflow_template_ref).1 v.entered,
      ),
    )

list_cases : {A : Type 0} (xs : List A) → (xs ≡ []) ⊎ ((xs ≢ []) × (is_empty xs ≡ false))
list_cases [] = inl refl
list_cases (x ∷ xs) = inr (λ q. ground (arith, q), refl)

-- The value that the pods' label has: the name, or the variable that the generated name replaces.
pub label_value : Workflow → Text
label_value w = if is_empty w.name then text "{{workflow.name}}" else w.name

-- The pods with the label are required to run on one node, and nothing else is asked of their place.
abbrev pub KeepsTogether : Text → Affinity → Type 0
KeepsTogether value a = a ≡ record {
  node_affinity = none;
  pod_affinity = some (record {
    required =
        record {
          label_selector = some (record {
            match_labels = (text "workflows.argoproj.io/workflow", value) ∷ [];
            match_expressions = [];
          });
          topology_key = text "kubernetes.io/hostname";
          namespaces = [];
        }
        ∷ [];
    preferred = [];
  });
  pod_anti_affinity = none;
}

-- The affinity of the built workflow, in the order of precedence.
pub data Chooses (w : Workflow) : Option Affinity → Type 0 where
  explicit : (a : Affinity) → w.affinity ≡ some a → Chooses w (some a)
  disabled : w.affinity ≡ none → w.disable_default_affinity ≡ true → Chooses w none
  unshared :
      w.affinity ≡ none
      → w.disable_default_affinity ≡ false
      → w.volume_claim_templates ≡ []
      → Chooses w none
  colocated :
      w.affinity ≡ none
      → w.disable_default_affinity ≡ false
      → w.volume_claim_templates ≢ []
      → (a : Affinity) → KeepsTogether (label_value w) a
      → Chooses w (some a)

colocate_by_label-KeepsTogether :
    (value : Text)
    → KeepsTogether value (colocate_by_label workflow_label_key value hostname_topology_key)
unfolding colocate_by_label
colocate_by_label-KeepsTogether value = refl

module _ (w : Workflow) where
  affinity_explicit : (a : Affinity) → w.affinity ≡ some a → resolve_affinity w ≡ some a
  unfolding resolve_affinity
  affinity_explicit a e = rw e refl

  affinity_disabled :
      w.affinity ≡ none → w.disable_default_affinity ≡ true → resolve_affinity w ≡ none
  unfolding resolve_affinity
  affinity_disabled e d = rw (e, d) refl

  affinity_unshared :
      w.affinity ≡ none
      → w.disable_default_affinity ≡ false
      → w.volume_claim_templates ≡ []
      → resolve_affinity w ≡ none
  unfolding resolve_affinity
  affinity_unshared e d n = rw (e, d, n) refl

  affinity_colocated :
      w.affinity ≡ none
      → w.disable_default_affinity ≡ false
      → is_empty w.volume_claim_templates ≡ false
      → resolve_affinity w ≡ default_pod_affinity_for (some w)
  unfolding resolve_affinity
  affinity_colocated e d n = ground (arith, e, d, n)

  default_affinity :
      (w.name ≢ []) ⊎ (w.generate_name ≢ [])
      → default_pod_affinity_for (some w)
        ≡ some (colocate_by_label workflow_label_key (label_value w) hostname_topology_key)
  unfolding default_pod_affinity_for label_value
  default_affinity named =
      let some_name = (named_iff w.name w.generate_name).1 named in
      elim (Bool-cases (is_empty w.name)) [
        | inl e ↦ ground (arith, e, some_name)
        | inr e ↦ ground (arith, e)
      ]

  -- The affinity of a valid workflow is the one given, else none if the default is disabled or there
  -- is no volume claim template, else one that requires the pods whose label has its name, or the
  -- variable for it, to run on one node.
  pub resolve_affinity-Chooses : IsValid w → Chooses w (resolve_affinity w)
  resolve_affinity-Chooses v = elim (Option-cases w.affinity) [
    | inr (a, e) ↦ rw (affinity_explicit a e) (explicit a e)
    | inl e ↦ elim (Bool-cases w.disable_default_affinity) [
      | inl d ↦ rw (affinity_disabled e d) (disabled e d)
      | inr d ↦ elim (list_cases w.volume_claim_templates) [
        | inl n ↦ rw (affinity_unshared e d n) (unshared e d n)
        | inr (n, m) ↦
            rw (affinity_colocated e d m, default_affinity v.named)
              (colocated e d n _ (colocate_by_label-KeepsTogether (label_value w)))
      ]
    ]
  ]

  -- The choice is the only one.
  pub Chooses-resolve_affinity :
      (a : Option Affinity) → IsValid w → Chooses w a → resolve_affinity w ≡ a
  unfolding colocate_by_label
  Chooses-resolve_affinity a v (explicit b e) = affinity_explicit b e
  Chooses-resolve_affinity a v (disabled e d) = affinity_disabled e d
  Chooses-resolve_affinity a v (unshared e d n) = affinity_unshared e d n
  Chooses-resolve_affinity a v (colocated e d n b k) = elim (list_cases w.volume_claim_templates) [
    | inl e2 ↦ elim (n e2) [ ]
    | inr (m, filled) ↦ rw (affinity_colocated e d filled, default_affinity v.named, k) refl
  ]
