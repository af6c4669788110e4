-- ===== src/Dag/Refinement.antt =====
-- A DAG of dag.go as its users see it: a list of tasks that takes each name once. The map of names
-- that the code keeps is an implementation of this list.
use theo_forge.Prelude.{
  Text, Option, none, some, List, [], ◌∷◌, ◌++◌, if◌then◌else◌, Error, name_conflict, In,
  Bool-cases, Option-cases, ◌≡◌, refl, ap, sym, ◌∙◌, ◌↔◌, inl, inr, arith,
}
use theo_forge.Dag.Task.{Task}
use theo_forge.Dag.Template.{Dag, member, add_task, add_tasks}
use theo_forge.Dag.Nodes.{
  task_list_names, IsTracked, member_iff, add_task-IsTracked, add_tasks-IsTracked,
}

pub data Call : Type 0 where
  one : Task → Call
  several : List Task → Call

-- The calls of `AddTask` and `AddTasks` on a DAG.
unfoldable pub make_call : Dag → Call → Dag × Option Error
make_call d (one t) = add_task d t
make_call d (several ts) = add_tasks d ts

-- The specification: a task whose name a task of the list has is refused, another one is appended.
abbrev pub spec_add : List Task → Task → List Task × Option Error
spec_add ts t =
    if member t.name (task_list_names ts)
    then (ts, some (name_conflict t.name))
    else (ts ++ t ∷ [], none)

abbrev spec_next : List Task × Option Error → List Task × Option Error → List Task × Option Error
spec_next (ts, none) rest = rest
spec_next (ts, some e) rest = (ts, some e)

spec_next-none : (q r : List Task × Option Error) → q.1 ≡ none → spec_next q r ≡ r
spec_next-none (ts, none) r h = refl
spec_next-none (ts, some e) r h = ground (arith, h)

spec_next-some : (q r : List Task × Option Error) (e : Error) → q.1 ≡ some e → spec_next q r ≡ q
spec_next-some (ts, none) r e h = ground (arith, h)
spec_next-some (ts, some d) r e h = refl

-- Tasks are added until one is refused.
abbrev pub spec_add_all : List Task → List Task → List Task × Option Error
spec_add_all ts [] = (ts, none)
spec_add_all ts (u ∷ us) = spec_next (spec_add ts u) (spec_add_all (spec_add ts u).0 us)

abbrev pub spec_call : List Task → Call → List Task × Option Error
spec_call ts (one t) = spec_add ts t
spec_call ts (several us) = spec_add_all ts us

-- A sequence of calls: the state that they leave, and what each of them returns.
abbrev pub replay :
    {S : Type 0} → (S → Call → S × Option Error) → S → List Call → S × List (Option Error)
replay step s [] = (s, [])
replay step s (c ∷ cs) =
    let (t, out) = step s c in let (u, outs) = replay step t cs in (u, out ∷ outs)

-- What a call of the code does is what the specification does.
abbrev IsSame : Dag × Option Error → List Task × Option Error → Type 0
IsSame r q = (r.0.tasks ≡ q.0) × (r.1 ≡ q.1)

member-same : (n : Text) (ns ms : List Text) → (In n ns ↔ In n ms) → member n ns ≡ member n ms
member-same n ns ms h = elim (Bool-cases (member n ms)) [
  | inl t ↦ rw t ((member_iff n ns).1 (h.1 ((member_iff n ms).0 t)))
  | inr f ↦ elim (Bool-cases (member n ns)) [
    | inl t ↦ ground (arith, f, (member_iff n ms).1 (h.0 ((member_iff n ns).0 t)))
    | inr g ↦ ground (arith, f, g)
  ]
]

add_task-IsSame : (d : Dag) (t : Task) → IsTracked d → IsSame (add_task d t) (spec_add d.tasks t)
unfolding add_task
add_task-IsSame d t v =
    let same = member-same t.name (task_list_names d.tasks) d.node_names (v.tracked t.name) in
    elim (Bool-cases (member t.name d.node_names)) [
      | inl old ↦ rw (same, old) (refl, refl)
      | inr new ↦ rw (same, new) (refl, refl)
    ]

add_tasks-IsSame :
    (d : Dag) (us : List Task) → IsTracked d → IsSame (add_tasks d us) (spec_add_all d.tasks us)
unfolding add_tasks
add_tasks-IsSame d [] v = (refl, refl)
add_tasks-IsSame d (u ∷ us) v =
    let (tasks, out) = add_task-IsSame d u v in
    let rest = spec_add_all (spec_add d.tasks u).0 us in
    elim (Option-cases (add_task d u).1) [
      | inl done ↦
          let more = add_tasks-IsSame (add_task d u).0 us (add_task-IsTracked d u v) in
          rw (done, add_tasks, spec_next-none (spec_add d.tasks u) rest (sym out ∙ done), ← tasks)
            more
      | inr (e, failed) ↦
          rw (failed, add_tasks, spec_next-some (spec_add d.tasks u) rest e (sym out ∙ failed))
            (tasks, sym failed ∙ out)
    ]

call-IsSame : (d : Dag) (c : Call) → IsTracked d → IsSame (make_call d c) (spec_call d.tasks c)
unfolding make_call
call-IsSame d (one t) v = add_task-IsSame d t v
call-IsSame d (several us) v = add_tasks-IsSame d us v

call-IsTracked : (d : Dag) (c : Call) → IsTracked d → IsTracked (make_call d c).0
unfolding make_call
call-IsTracked d (one t) v = add_task-IsTracked d t v
call-IsTracked d (several us) v = add_tasks-IsTracked d us v

-- Whatever calls of `AddTask` and `AddTasks` are made on a DAG whose names are tracked, each returns
-- what the specification returns, and the DAG has the tasks of the specification, in its order.
pub replay-Refines :
    (d : Dag) (cs : List Call)
    → IsTracked d
    → ((replay make_call d cs).0.tasks ≡ (replay spec_call d.tasks cs).0)
      × ((replay make_call d cs).1 ≡ (replay spec_call d.tasks cs).1)
replay-Refines d [] v = (refl, refl)
replay-Refines d (c ∷ cs) v =
    let (tasks, out) = call-IsSame d c v in
    let (all, outs) = replay-Refines (make_call d c).0 cs (call-IsTracked d c v) in
    rw (← tasks, ← out) (all, ap (λ os. (make_call d c).1 ∷ os) outs)
