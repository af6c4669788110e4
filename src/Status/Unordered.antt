-- ===== src/Status/Unordered.antt =====
-- AllPodNodesExitedZero of status.go ranges over a map, whose order Go leaves open: its result is the
-- same in every order.
use theo_forge.Prelude.{
  Bool, true, Text, some, List, [], ◌∷◌, In, ◌≡◌, refl, ap, ◌↔◌, inl, inr, arith, Bool-cases,
}
use mathlib.Core.Bool.{Bool-set}
use mathlib.Core.Quot
use mathlib.Core.Quot.{Quot, Quot-set}
use theo_forge.Model.Workflows.{NodeStatus, WorkflowStatusDetail}
use theo_forge.Status.{
  IsPod, ExitedZero, HasPod, PodsExitZero, all_pod_nodes_exited_zero, all_pod_nodes_exited_zero_iff,
}

abbrev pub Nodes : Type 0
Nodes = List (Text × NodeStatus)

-- Two lists hold the same entries.
abbrev pub SameEntries : Nodes → Nodes → Type 0
SameEntries xs ys = (e : Text × NodeStatus) → In e xs ↔ In e ys

HasPod-In : (nodes : Nodes) → HasPod nodes → (e : Text × NodeStatus) × In e nodes × IsPod e.1
unfolding HasPod
HasPod-In [] h = elim h [ ]
HasPod-In ((key, node) ∷ nodes) (inl p) = ((key, node), inl refl, p)
HasPod-In ((key, node) ∷ nodes) (inr h) = let (e, i, p) = HasPod-In nodes h in (e, inr i, p)

In-HasPod : (nodes : Nodes) (e : Text × NodeStatus) → In e nodes → IsPod e.1 → HasPod nodes
unfolding HasPod
In-HasPod [] e h p = elim h [ ]
In-HasPod ((key, node) ∷ nodes) e (inl same) p = inl (rw (← same) at p)
In-HasPod ((key, node) ∷ nodes) e (inr h) p = inr (In-HasPod nodes e h p)

PodsExitZero-In :
    (nodes : Nodes)
    → PodsExitZero nodes
    → (e : Text × NodeStatus) → In e nodes
    → IsPod e.1
    → ExitedZero e.1
unfolding PodsExitZero
PodsExitZero-In [] z e h p = elim h [ ]
PodsExitZero-In ((key, node) ∷ nodes) z e (inl same) p = rw (← same) (z.0 (rw (← same) at p))
PodsExitZero-In ((key, node) ∷ nodes) z e (inr h) p = PodsExitZero-In nodes z.1 e h p

In-PodsExitZero :
    (nodes : Nodes)
    → ((e : Text × NodeStatus) → In e nodes → IsPod e.1 → ExitedZero e.1)
    → PodsExitZero nodes
unfolding PodsExitZero
In-PodsExitZero [] h = tt
In-PodsExitZero ((key, node) ∷ nodes) h =
    (h (key, node) (inl refl), In-PodsExitZero nodes (λ e i. h e (inr i)))

HasPod-same : (xs ys : Nodes) → SameEntries xs ys → HasPod xs → HasPod ys
HasPod-same xs ys s h = let (e, i, p) = HasPod-In xs h in In-HasPod ys e ((s e).0 i) p

PodsExitZero-same : (xs ys : Nodes) → SameEntries xs ys → PodsExitZero xs → PodsExitZero ys
PodsExitZero-same xs ys s z = In-PodsExitZero ys (λ e i. PodsExitZero-In xs z e ((s e).1 i))

-- The status with these nodes.
abbrev pub with_nodes : WorkflowStatusDetail → Nodes → WorkflowStatusDetail
with_nodes status nodes = record status { nodes = nodes }

implied :
    (status : WorkflowStatusDetail) (xs ys : Nodes)
    → SameEntries xs ys
    → all_pod_nodes_exited_zero (some (with_nodes status xs)) ≡ true
    → all_pod_nodes_exited_zero (some (with_nodes status ys)) ≡ true
implied status xs ys s h =
    let (t, e, p, z) = (all_pod_nodes_exited_zero_iff (some (with_nodes status xs))).0 h in
    let same : with_nodes status xs ≡ t = cc in
    let nodes : xs ≡ t.nodes = ap (λ u. u.nodes) same in
    (all_pod_nodes_exited_zero_iff (some (with_nodes status ys))).1 (
      with_nodes status ys,
      refl,
      HasPod-same xs ys s (rw (← nodes) at p),
      PodsExitZero-same xs ys s (rw (← nodes) at z),
    )

-- Whatever order the entries of the map are visited in, `AllPodNodesExitedZero` gives the same result.
pub all_pod_nodes_exited_zero-SameEntries :
    (status : WorkflowStatusDetail) (xs ys : Nodes)
    → SameEntries xs ys
    → all_pod_nodes_exited_zero (some (with_nodes status xs))
      ≡ all_pod_nodes_exited_zero (some (with_nodes status ys))
all_pod_nodes_exited_zero-SameEntries status xs ys s =
    elim (Bool-cases (all_pod_nodes_exited_zero (some (with_nodes status xs)))) [
      | inl t ↦ ground (arith, t, implied status xs ys s t)
      | inr f ↦ elim (Bool-cases (all_pod_nodes_exited_zero (some (with_nodes status ys)))) [
        | inl t ↦ ground (arith, f, implied status ys xs (λ e. ((s e).1, (s e).0)) t)
        | inr g ↦ ground (arith, f, g)
      ]
    ]

-- The map of nodes, without the order of a list.
abbrev pub NodeMap : Type 0
NodeMap = Quot SameEntries

-- The function on maps.
abbrev pub exited_zero_of : WorkflowStatusDetail → NodeMap → Bool
exited_zero_of status =
    Quot.lift Bool-set (λ nodes. all_pod_nodes_exited_zero (some (with_nodes status nodes)))
      (λ xs ys h. all_pod_nodes_exited_zero-SameEntries status xs ys h)
