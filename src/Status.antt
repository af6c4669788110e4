-- ===== src/Status.antt =====
-- status.go and model/status.go: the states of a workflow, and whether its pods have exited well.
pub mod Unordered
use theo_forge.Prelude.{
  ℕ, suc, ltb, Bool, true, false, Text, text, Option, none, some, List, [], ◌∷◌, ◌==◌,
  if◌then◌else◌, Result, ok, err, errorf, wrapping, ◌>>=◌, ◌≡◌, refl, ◌↔◌, ◌⊎◌, inl, inr, arith,
  Bool-cases, Option-cases, ==_iff,
}
use theo_forge.Model.Artifacts.{OutputsModel}
use theo_forge.Model.Workflows.{NodeStatus, WorkflowStatusDetail}

pub data WorkflowStatus : Type 0 where
  pending running succeeded failed error terminated : WorkflowStatus

unfoldable pub parse_workflow_status : Text → Result WorkflowStatus
parse_workflow_status s =
    if s == text "Pending"
    then ok pending
    else if s == text "Running"
    then ok running
    else if s == text "Succeeded"
    then ok succeeded
    else if s == text "Failed"
    then ok failed
    else if s == text "Error"
    then ok error
    else if s == text "Terminated"
    then ok terminated
    else err (
        errorf
          "unknown workflow status %q, valid options: Pending, Running, Succeeded, Failed, Error, Terminated"
          (s ∷ []))

unfoldable pub is_pod : NodeStatus → Bool
is_pod node = node.type == text "Pod"

unfoldable pub exited_zero : NodeStatus → Bool
exited_zero node = elim node.outputs [ none ↦ false | some o ↦ o.exit_code == text "0" ]

-- The loop, from a count of the pods on.
unfoldable pub count_pods : ℕ → List (Text × NodeStatus) → Bool
count_pods n [] = ltb 0 n
count_pods n ((key, node) ∷ nodes) =
    let next_pod = count_pods (suc n) nodes in
    let skipped = count_pods n nodes in
    if is_pod node then (if exited_zero node then next_pod else false) else skipped

unfoldable pub all_pod_nodes_exited_zero : Option WorkflowStatusDetail → Bool
all_pod_nodes_exited_zero none = false
all_pod_nodes_exited_zero (some status) = elim status.nodes [
  | [] ↦ false
  | n ∷ ns ↦ count_pods 0 (n ∷ ns)
]

-- `obj["status"]`
unfoldable pub find_status {ℓ} : {A : Type ℓ} → List (Text × A) → Option A
find_status [] = none
find_status ((key, raw_status) ∷ obj) =
    let rest = find_status obj in if key == text "status" then some raw_status else rest

-- A value of an unstructured object is an `A`; `json.Marshal` of it, and `json.Unmarshal` into a status, are
-- parameters.
unfoldable pub parse_workflow_status_from_unstructured {ℓ} :
    {A : Type ℓ}
    → (A → Result Text)
    → (Text → Result WorkflowStatusDetail)
    → List (Text × A)
    → Result (Option WorkflowStatusDetail)
parse_workflow_status_from_unstructured marshal unmarshal obj = elim (find_status obj) [
  | none ↦ ok none
  | some raw_status ↦ wrapping "marshal status: %w" [] (marshal raw_status) >>= λ data_.
      wrapping "unmarshal status: %w" [] (unmarshal data_) >>= λ status. ok (some status)
]

-- A node of the type Pod.
abbrev pub IsPod : NodeStatus → Type 0
IsPod node = node.type ≡ text "Pod"

-- A node whose outputs have the exit code 0.
abbrev pub ExitedZero : NodeStatus → Type 0
ExitedZero node = (o : OutputsModel) × (node.outputs ≡ some o) × (o.exit_code ≡ text "0")

-- A pod among the nodes.
pub HasPod : List (Text × NodeStatus) → Type 0
HasPod [] = ⊥
HasPod ((key, node) ∷ nodes) = IsPod node ⊎ HasPod nodes

-- Each pod has the exit code 0.
pub PodsExitZero : List (Text × NodeStatus) → Type 0
PodsExitZero [] = Unit
PodsExitZero ((key, node) ∷ nodes) = (IsPod node → ExitedZero node) × PodsExitZero nodes

is_pod_iff : (node : NodeStatus) → (is_pod node ≡ true) ↔ IsPod node
unfolding is_pod
is_pod_iff node = ==_iff node.type (text "Pod")

exited_zero_iff : (node : NodeStatus) → (exited_zero node ≡ true) ↔ ExitedZero node
unfolding exited_zero
exited_zero_iff node = elim (Option-cases node.outputs) [
  | inl e ↦ (λ h. ground (arith, h, e), λ (o, q, z). ground (arith, q, e))
  | inr (o, e) ↦ (
    λ h. (o, e, (==_iff o.exit_code (text "0")).0 (rw (e, exited_zero) at h)),
    λ (x, q, z).
        let same : o ≡ x = cc in
        rw (e, exited_zero) ((==_iff o.exit_code (text "0")).1 (rw same z)),
  )
]

count_pods_lem :
    (n : ℕ) (nodes : List (Text × NodeStatus))
    → (count_pods n nodes ≡ true) ↔ (((ltb 0 n ≡ true) ⊎ HasPod nodes) × PodsExitZero nodes)
unfolding count_pods HasPod PodsExitZero
count_pods_lem n [] = (λ h. (inl h, tt), λ h. elim h.0 [ inl k ↦ k | inr k ↦ elim k [ ] ])
count_pods_lem n ((key, node) ∷ nodes) = elim (Bool-cases (is_pod node)) [
  | inl p ↦ elim (Bool-cases (exited_zero node)) [
    | inl e ↦
        let pod = (is_pod_iff node).0 p in
        let zero = (exited_zero_iff node).0 e in
        let more = count_pods_lem (suc n) nodes in
        rw (p, e)
          (λ h. (inr (inl pod), (λ _. zero, (more.0 h).1)), λ h. more.1 (inl (ground arith), h.1.1))
    | inr e ↦
        let pod = (is_pod_iff node).0 p in
        rw (p, e)
          (
            λ h. ground (arith, h),
            λ h. let bad = (exited_zero_iff node).1 (h.1.0 pod) in ground (arith, e, bad),
          )
  ]
  | inr p ↦
      let other : ¬ (IsPod node) = λ q. let bad = (is_pod_iff node).1 q in ground (arith, p, bad) in
      let more = count_pods_lem n nodes in
      rw p (
        λ h. (
          elim (more.0 h).0 [ inl k ↦ inl k | inr k ↦ inr (inr k) ],
          (λ q. elim (other q) [ ], (more.0 h).1),
        ),
        λ h. more.1 (
          elim h.0 [
            | inl k ↦ inl k
            | inr k ↦ elim k [ inl q ↦ elim (other q) [ ] | inr r ↦ inr r ]
          ],
          h.1.1,
        ),
      )
]

nodes_iff :
    (nodes : List (Text × NodeStatus))
    → ((elim nodes [ [] ↦ false | n ∷ ns ↦ count_pods 0 (n ∷ ns) ]) ≡ true)
      ↔ (HasPod nodes × PodsExitZero nodes)
unfolding HasPod PodsExitZero
nodes_iff [] = (λ h. ground (arith, h), λ h. elim h.0 [ ])
nodes_iff (n ∷ ns) =
    let counted = count_pods_lem 0 (n ∷ ns) in
    (
      λ h.
          let (some_pod, all) = counted.0 h in
          (elim some_pod [ inl z ↦ ground (arith, z) | inr k ↦ k ], all),
      λ h. counted.1 (inr h.0, h.1),
    )

-- `AllPodNodesExitedZero` holds exactly of a status that has a pod among its nodes, and of whose pods
-- each has the exit code 0.
pub all_pod_nodes_exited_zero_iff :
    (status : Option WorkflowStatusDetail)
    → (all_pod_nodes_exited_zero status ≡ true)
      ↔ ((s : WorkflowStatusDetail) × (status ≡ some s) × HasPod s.nodes × PodsExitZero s.nodes)
unfolding all_pod_nodes_exited_zero
all_pod_nodes_exited_zero_iff none = (λ h. ground (arith, h), λ (s, e, _, _). ground (arith, e))
all_pod_nodes_exited_zero_iff (some status) = (
  λ h. let (p, z) = (nodes_iff status.nodes).0 h in (status, refl, p, z),
  λ (s, e, p, z). let same : status ≡ s = cc in (nodes_iff status.nodes).1 (rw same (p, z)),
)
