-- ===== src/Steps/Groups.antt =====
-- What `AddParallelGroup` of steps.go accepts, and what a refused group leaves.
use theo_forge.Prelude.{
  ◌≡◌, refl, sym, true, ◌⊎◌, inl, inr, Text, none, some, List, [], ◌∷◌, ◌++◌, In, Bool-cases,
  name_conflict,
}
use mathlib.Core.List.{append_assoc, append-nil}
use theo_forge.Dag.Template.{member}
use theo_forge.Dag.Nodes.{not-member_iff, member_iff}
use theo_forge.Steps.Template.{
  Step, Parallel, Steps, add_sequential_step, fill_group, no_parallel, add_parallel_group,
}
use theo_forge.Steps.Nodes.{
  step_list_names, all_names, IsTracked, IsFilling, push-IsFilling, fill-new, fill-old, start,
}

-- A group can be added: its names are new to the template, and none of them occurs twice.
unfoldable pub AllNew : List Text → List Step → Type 0
AllNew names [] = Unit
AllNew names (st ∷ ss) = (¬ (In st.name names)) × AllNew (st.name ∷ names) ss

fill-cases :
    (known names : List Text) (p : Parallel) (ss : List Step)
    → IsFilling known names p
    → (AllNew names ss
        × ((fill_group names p ss).2 ≡ none)
        × ((fill_group names p ss).1.steps ≡ p.steps ++ ss))
      ⊎ (¬ (AllNew names ss)
          × ((n : Text) × ((fill_group names p ss).2 ≡ some (name_conflict n))
              × In n (step_list_names ss)))
unfolding AllNew
fill-cases known names p [] v = inl (unfold fill_group in (tt, refl, sym (append-nil p.steps)))
fill-cases known names p (st ∷ ss) v = elim (Bool-cases (member st.name names)) [
  | inl old ↦
      rw (fill-old names p st ss old)
        (inr (λ h. h.0 ((member_iff st.name names).0 old), (st.name, refl, inl refl)))
  | inr new ↦
      let fresh = (not-member_iff st.name names).0 new in
      let q : Parallel = record {
        steps = p.steps ++ st ∷ [];
        node_names = st.name ∷ p.node_names;
      } in
      rw (fill-new known names p st ss v new)
        (elim (fill-cases known (st.name ∷ names) q ss (push-IsFilling known names p st v fresh)) [
          | inl (a, b, c) ↦ inl ((fresh, a), b, rw c (append_assoc p.steps (st ∷ []) ss))
          | inr (a, (n, b, c)) ↦ inr (λ h. a h.1, (n, b, inr c))
        ])
]

-- On a template whose names are distinct and registered, `AddParallelGroup` accepts a group exactly
-- if its names are not registered and distinct; then a group of these steps is the last. Otherwise
-- no group is added and the error names a step of the group.
pub add_parallel_group_lem :
    (s : Steps) (ss : List Step)
    → IsTracked s
    → (AllNew s.node_names ss
        × ((add_parallel_group s ss).1 ≡ none)
        × ((p : Parallel) × (p.steps ≡ ss)
            × ((add_parallel_group s ss).0.step_groups ≡ s.step_groups ++ p ∷ [])))
      ⊎ (¬ (AllNew s.node_names ss)
          × ((n : Text) × ((add_parallel_group s ss).1 ≡ some (name_conflict n))
              × In n (step_list_names ss))
          × ((add_parallel_group s ss).0.step_groups ≡ s.step_groups))
unfolding add_parallel_group
add_parallel_group_lem s ss v =
    let w = start s v in
    elim (fill-cases (all_names s.step_groups) s.node_names no_parallel ss w) [
      | inl (a, b, c) ↦ inl (
        a,
        rw (b, add_parallel_group) refl,
        ((fill_group s.node_names no_parallel ss).1, c, rw (b, add_parallel_group) refl),
      )
      | inr (a, (n, b, c)) ↦
          inr (a, (n, rw (b, add_parallel_group) refl, c), rw (b, add_parallel_group) refl)
    ]

-- Names, the latest first.
abbrev pub with_names : List Step → List Text → List Text
with_names [] names = names
with_names (st ∷ ss) names = with_names ss (st.name ∷ names)

with_names-kept :
    (n : Text) (ss : List Step) (names : List Text) → In n names → In n (with_names ss names)
with_names-kept n [] names h = h
with_names-kept n (st ∷ ss) names h = with_names-kept n ss (st.name ∷ names) (inr h)

with_names-In :
    (n : Text) (ss : List Step) (names : List Text)
    → In n (step_list_names ss)
    → In n (with_names ss names)
with_names-In n [] names h = elim h [ ]
with_names-In n (st ∷ ss) names (inl q) = with_names-kept n ss (st.name ∷ names) (inl q)
with_names-In n (st ∷ ss) names (inr h) = with_names-In n ss (st.name ∷ names) h

-- A filling stops at the first step whose name is known; the steps before it stay registered.
fill-stops :
    (known names : List Text) (p : Parallel) (before after : List Step) (st : Step)
    → IsFilling known names p
    → AllNew names before
    → In st.name (with_names before names)
    → ((fill_group names p (before ++ st ∷ after)).0 ≡ with_names before names)
      × ((fill_group names p (before ++ st ∷ after)).2 ≡ some (name_conflict st.name))
unfolding AllNew
fill-stops known names p [] after st v n h =
    rw (fill-old names p st after ((member_iff st.name names).1 h)) (refl, refl)
fill-stops known names p (b ∷ before) after st v (fresh, n) h =
    let new = (not-member_iff b.name names).1 fresh in
    rw (fill-new known names p b (before ++ st ∷ after) v new) (
      fill-stops known (b.name ∷ names) _ before after st (push-IsFilling known names p b v fresh) n
        h)

-- On a template whose names are distinct and registered: a group whose first steps have new, distinct names, and
-- whose next step has the name of one of these or a registered name, is refused with that name and adds
-- no group, but the names of those first steps stay registered: a later `AddSequentialStep` of any of
-- them is refused too.
pub add_parallel_group-leaks :
    (s : Steps) (before after : List Step) (st : Step)
    → IsTracked s
    → AllNew s.node_names before
    → In st.name (step_list_names before) ⊎ In st.name s.node_names
    → ((add_parallel_group s (before ++ st ∷ after)).1 ≡ some (name_conflict st.name))
      × ((add_parallel_group s (before ++ st ∷ after)).0.step_groups ≡ s.step_groups)
      × ((b : Step)
          → In b.name (step_list_names before)
          → (add_sequential_step (add_parallel_group s (before ++ st ∷ after)).0 b).1
            ≡ some (name_conflict b.name))
unfolding add_parallel_group add_sequential_step
add_parallel_group-leaks s before after st v n taken =
    let known : In st.name (with_names before s.node_names) = elim taken [
      | inl h ↦ with_names-In st.name before s.node_names h
      | inr h ↦ with_names-kept st.name before s.node_names h
    ] in
    let (names, error) =
      fill-stops (all_names s.step_groups) s.node_names no_parallel before after st (start s v) n
        known in
    (
      rw (error, add_parallel_group) refl,
      rw (error, add_parallel_group) refl,
      λ b h.
          let old : member b.name (with_names before s.node_names) ≡ true =
            (member_iff b.name _).1 (with_names-In b.name before s.node_names h) in
          rw (error, add_parallel_group, names, old, add_sequential_step) refl,
    )
