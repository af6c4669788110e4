-- ===== src/Dag/Nodes.antt =====
-- Adding tasks to a DAG: which calls are refused, and the names of the tasks.
use theo_forge.Prelude.{
  ◌≡◌, ◌↔◌, ◌⊎◌, inl, inr, true, false, Text, none, some, List, [], ◌∷◌, ◌++◌, map, ◌==◌, ==_iff,
  In, In-append, In-append_left, In-append_right, AllDistinct, AllDistinct-snoc, Bool-cases,
  Option-cases, arith, name_conflict,
}
use mathlib.Core.List.{map-append}
use theo_forge.Dag.Task.{Task}
use theo_forge.Dag.Template.{Dag, member, add_task, add_tasks}

member_sound : (n : Text) (ns : List Text) → member n ns ≡ true → In n ns
unfolding member
member_sound n [] h = ground arith
member_sound n (k ∷ ns) h = elim (Bool-cases (k == n)) [
  | inl e ↦ inl ((==_iff k n).0 e)
  | inr e ↦ inr (member_sound n ns (ground arith))
]

member_complete : (n : Text) (ns : List Text) → In n ns → member n ns ≡ true
unfolding member
member_complete n [] h = elim h [ ]
member_complete n (k ∷ ns) (inl e) = ground (arith, (==_iff k n).1 e)
member_complete n (k ∷ ns) (inr h) = ground (arith, member_complete n ns h)

-- A name is a member of the map exactly if it stands in the list of its keys.
pub member_iff : (n : Text) (ns : List Text) → (member n ns ≡ true) ↔ In n ns
member_iff n ns = (member_sound n ns, member_complete n ns)

pub not-member_iff : (n : Text) (ns : List Text) → (member n ns ≡ false) ↔ ¬ (In n ns)
not-member_iff n ns = (
  λ f h. ground (arith, member_complete n ns h),
  λ h. elim (Bool-cases (member n ns)) [ inl t ↦ absurd (h (member_sound n ns t)) | inr f ↦ f ],
)

abbrev pub task_list_names : List Task → List Text
task_list_names ts = map (λ t. t.name) ts

-- No two tasks share a name, and `nodeNames` holds exactly the names of the tasks.
pub record IsTracked (d : Dag) : Type 0 where
  pub distinct : AllDistinct (task_list_names d.tasks)
  pub tracked : (n : Text) → In n (task_list_names d.tasks) ↔ In n d.node_names

names-snoc :
    (ts : List Task) (t : Task) → task_list_names (ts ++ t ∷ []) ≡ task_list_names ts ++ t.name ∷ []
names-snoc ts t = simp map-append

In-snoc : (n m : Text) (ns : List Text) → In n (ns ++ m ∷ []) → In n ns ⊎ (m ≡ n)
In-snoc n m ns h = elim (In-append n ns (m ∷ []) h) [
  | inl l ↦ inl l
  | inr (inl e) ↦ inr e
  | inr (inr b) ↦ absurd b
]

push-IsTracked :
    (d : Dag) (t : Task)
    → IsTracked d
    → ¬ (In t.name d.node_names)
    → IsTracked (record d { node_names = t.name ∷ d.node_names; tasks = d.tasks ++ t ∷ [] })
push-IsTracked d t v fresh = record {
  distinct =
      rw names-snoc (AllDistinct-snoc _ t.name v.distinct (λ h. fresh ((v.tracked t.name).0 h)));
  tracked = λ n. (
    λ h. elim (In-snoc n t.name (task_list_names d.tasks) (rw names-snoc at h)) [
      | inl l ↦ inr ((v.tracked n).0 l)
      | inr e ↦ inl e
    ],
    elim [
      | inl e ↦ rw names-snoc (In-append_right n (task_list_names d.tasks) (t.name ∷ []) (inl e))
      | inr h ↦
          rw names-snoc
            (In-append_left n (task_list_names d.tasks) (t.name ∷ []) ((v.tracked n).1 h))
    ],
  );
}

-- `AddTask`, refused or not, keeps the names distinct and tracked.
pub add_task-IsTracked : (d : Dag) (t : Task) → IsTracked d → IsTracked (add_task d t).0
unfolding add_task
add_task-IsTracked d t v = elim (Bool-cases (member t.name d.node_names)) [
  | inl old ↦ rw old v
  | inr new ↦ rw new (push-IsTracked d t v ((not-member_iff t.name d.node_names).0 new))
]

-- `AddTasks` on a DAG whose names are distinct and tracked, refused or not, keeps them so.
pub add_tasks-IsTracked : (d : Dag) (ts : List Task) → IsTracked d → IsTracked (add_tasks d ts).0
unfolding add_tasks
add_tasks-IsTracked d [] v = v
add_tasks-IsTracked d (t ∷ ts) v = elim (Option-cases (add_task d t).1) [
  | inl done ↦
      rw (done, add_tasks) (add_tasks-IsTracked (add_task d t).0 ts (add_task-IsTracked d t v))
  | inr (e, failed) ↦ rw (failed, add_tasks) (add_task-IsTracked d t v)
]

-- On a DAG whose names are tracked, `AddTask` is refused exactly if a task of the DAG has the name;
-- then the DAG is unchanged and the error names the conflict. Otherwise the task is the last one.
pub add_task_lem :
    (d : Dag) (t : Task)
    → IsTracked d
    → (In t.name (task_list_names d.tasks) × ((add_task d t) ≡ (d, some (name_conflict t.name))))
      ⊎ (¬ (In t.name (task_list_names d.tasks))
          × ((add_task d t).1 ≡ none)
          × ((add_task d t).0.tasks ≡ d.tasks ++ t ∷ []))
unfolding add_task
add_task_lem d t v = elim (Bool-cases (member t.name d.node_names)) [
  | inl old ↦ inl ((v.tracked t.name).1 ((member_iff t.name d.node_names).0 old), rw old)
  | inr new ↦
      inr (λ h. (not-member_iff t.name d.node_names).0 new ((v.tracked t.name).0 h), rw new, rw new)
]
