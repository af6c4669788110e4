-- ===== src/Steps/Nodes.antt =====
-- Adding steps to a Steps template: the names across its groups.
use theo_forge.Prelude.{
  ◌≡◌, refl, ◌⊎◌, inl, inr, true, false, Text, Option, none, some, List, [], ◌∷◌, ◌++◌, map, In,
  In-append, AllDistinct, AllDistinct-snoc, Bool-cases, Option-cases, arith, name_conflict, Error,
}
use mathlib.Core.List.{append_assoc, append-nil, map-append}
use theo_forge.Dag.Template.{member}
use theo_forge.Dag.Nodes.{not-member_iff}
use theo_forge.Steps.Template.{
  Step, Parallel, Steps, add_step, add_sequential_step, fill_group, no_parallel, add_parallel_group,
}

abbrev pub step_list_names : List Step → List Text
step_list_names ss = map (λ s. s.name) ss

-- The names of the steps of all groups.
abbrev pub all_names : List Parallel → List Text
all_names [] = []
all_names (p ∷ ps) = step_list_names p.steps ++ all_names ps

all_names-append : (ps qs : List Parallel) → all_names (ps ++ qs) ≡ all_names ps ++ all_names qs
all_names-append [] qs = refl
all_names-append (p ∷ ps) qs = rw (all_names-append ps qs, append_assoc)

-- No two steps of the template share a name, and each name is registered. (A refused group may leave
-- names registered that no step has.)
pub record IsTracked (s : Steps) : Type 0 where
  pub distinct : AllDistinct (all_names s.step_groups)
  pub tracked : (n : Text) → In n (all_names s.step_groups) → In n s.node_names

-- What the loop of `AddParallelGroup` keeps: `known` are the names of the earlier groups.
pub record IsFilling (known names : List Text) (p : Parallel) : Type 0 where
  pub distinct : AllDistinct (known ++ step_list_names p.steps)
  pub tracked : (n : Text) → In n (known ++ step_list_names p.steps) → In n names
  pub listed : (n : Text) → In n p.node_names → In n names
  pub kept : (n : Text) → In n known → In n names

names-snoc :
    (known : List Text) (ss : List Step) (st : Step)
    → known ++ step_list_names (ss ++ st ∷ []) ≡ (known ++ step_list_names ss) ++ st.name ∷ []
names-snoc known ss st = simp (map-append, append_assoc)

In-snoc : (n m : Text) (ns : List Text) → In n (ns ++ m ∷ []) → In n ns ⊎ (m ≡ n)
In-snoc n m ns h = elim (In-append n ns (m ∷ []) h) [
  | inl l ↦ inl l
  | inr (inl e) ↦ inr e
  | inr (inr b) ↦ absurd b
]

-- A new name was never given to the group, so `AddStep` takes the step.
add_step-new :
    (known names : List Text) (p : Parallel) (st : Step)
    → IsFilling known names p
    → member st.name names ≡ false
    → add_step p st
      ≡ (record { steps = p.steps ++ st ∷ []; node_names = st.name ∷ p.node_names }, none)
unfolding add_step
add_step-new known names p st v new = rw (
    (not-member_iff st.name p.node_names).1
      (λ h. (not-member_iff st.name names).0 new (v.listed st.name h)))

pub push-IsFilling :
    (known names : List Text) (p : Parallel) (st : Step)
    → IsFilling known names p
    → ¬ (In st.name names)
    → IsFilling known
        (st.name ∷ names)
        (record { steps = p.steps ++ st ∷ []; node_names = st.name ∷ p.node_names })
push-IsFilling known names p st v new = record {
  distinct =
      rw (names-snoc known p.steps st)
        (AllDistinct-snoc _ st.name v.distinct (λ h. new (v.tracked st.name h)));
  tracked = λ n h.
      elim (In-snoc n st.name (known ++ step_list_names p.steps)
        (rw (names-snoc known p.steps st) at h)) [ inl l ↦ inr (v.tracked n l) | inr e ↦ inl e ];
  listed = λ n. elim [ inl e ↦ inl e | inr h ↦ inr (v.listed n h) ];
  kept = λ n h. inr (v.kept n h);
}

pub fill-new :
    (known names : List Text) (p : Parallel) (st : Step) (ss : List Step)
    → IsFilling known names p
    → member st.name names ≡ false
    → fill_group names p (st ∷ ss)
      ≡ fill_group
          (st.name ∷ names)
          (record { steps = p.steps ++ st ∷ []; node_names = st.name ∷ p.node_names })
          ss
unfolding fill_group
fill-new known names p st ss v new = ground (arith, add_step-new known names p st v new)

pub fill-old :
    (names : List Text) (p : Parallel) (st : Step) (ss : List Step)
    → member st.name names ≡ true
    → fill_group names p (st ∷ ss) ≡ (names, p, some (name_conflict st.name))
unfolding fill_group
fill-old names p st ss old = ground arith

fill-IsFilling :
    (known names : List Text) (p : Parallel) (ss : List Step)
    → IsFilling known names p
    → IsFilling known (fill_group names p ss).0 (fill_group names p ss).1
fill-IsFilling known names p [] v = unfold fill_group in v
fill-IsFilling known names p (st ∷ ss) v = elim (Bool-cases (member st.name names)) [
  | inl old ↦ rw (fill-old names p st ss old) v
  | inr new ↦ rw (fill-new known names p st ss v new) (
      fill-IsFilling known (st.name ∷ names) _ ss
        (push-IsFilling known names p st v ((not-member_iff st.name names).0 new)))
]

-- `AddSequentialStep`, refused or not, keeps the names distinct and registered.
pub add_sequential_step-IsTracked :
    (s : Steps) (st : Step) → IsTracked s → IsTracked (add_sequential_step s st).0
unfolding add_sequential_step
add_sequential_step-IsTracked s st v = elim (Bool-cases (member st.name s.node_names)) [
  | inl old ↦ rw old v
  | inr new ↦ rw new (record {
    distinct = rw all_names-append (
        AllDistinct-snoc _ st.name v.distinct
          (λ h. (not-member_iff st.name s.node_names).0 new (v.tracked st.name h)));
    tracked = λ n h. elim (In-snoc n st.name (all_names s.step_groups) (rw all_names-append at h)) [
      | inl l ↦ inr (v.tracked n l)
      | inr e ↦ inl e
    ];
  })
]

pub start : (s : Steps) → IsTracked s → IsFilling (all_names s.step_groups) s.node_names no_parallel
start s v = record {
  distinct = rw append-nil v.distinct;
  tracked = λ n h. v.tracked n (rw append-nil at h);
  listed = λ n h. absurd h;
  kept = v.tracked;
}

-- `AddParallelGroup`, refused or not, keeps the names distinct and registered.
pub add_parallel_group-IsTracked :
    (s : Steps) (ss : List Step) → IsTracked s → IsTracked (add_parallel_group s ss).0
unfolding add_parallel_group
add_parallel_group-IsTracked s ss v =
    let known = all_names s.step_groups in
    let w = start s v in
    let filled = fill-IsFilling known s.node_names no_parallel ss w in
    elim (Option-cases (fill_group s.node_names no_parallel ss).2) [
      | inl done ↦
          rw (done, add_parallel_group)
            (record {
              distinct = rw (all_names-append, append-nil) filled.distinct;
              tracked = λ n h. filled.tracked n (rw (all_names-append, append-nil) at h);
            })
      | inr (e, failed) ↦
          rw (failed, add_parallel_group)
            (record { distinct = v.distinct; tracked = λ n h. filled.kept n h })
    ]

-- The calls that fill a template.
pub data Call : Type 0 where
  sequential : Step → Call
  parallel : List Step → Call

pub make_call : Steps → Call → Steps × Option Error
make_call s (sequential st) = add_sequential_step s st
make_call s (parallel ss) = add_parallel_group s ss

pub make_calls : Steps → List Call → Steps
make_calls s [] = s
make_calls s (c ∷ cs) = make_calls (make_call s c).0 cs

make_call-IsTracked : (s : Steps) (c : Call) → IsTracked s → IsTracked (make_call s c).0
unfolding make_call
make_call-IsTracked s (sequential st) v = add_sequential_step-IsTracked s st v
make_call-IsTracked s (parallel ss) v = add_parallel_group-IsTracked s ss v

-- Whatever calls of `AddSequentialStep` and `AddParallelGroup` are made on a template whose names
-- are distinct and registered, and whichever of them are refused, the names of the steps of all
-- groups stay distinct and registered.
pub make_calls-IsTracked : (s : Steps) (cs : List Call) → IsTracked s → IsTracked (make_calls s cs)
unfolding make_calls
make_calls-IsTracked s [] v = v
make_calls-IsTracked s (c ∷ cs) v =
    make_calls-IsTracked (make_call s c).0 cs (make_call-IsTracked s c v)
