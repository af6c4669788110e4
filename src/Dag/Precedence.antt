-- ===== src/Dag/Precedence.antt =====
-- `Task.Then` of dag.go keeps the precedence of the operators in `Depends`.
use theo_forge.Prelude.{
  ◌≡◌, ◌≢◌, inl, inr, ◌↔◌, false, Text, text, List, [], ◌∷◌, ◌++◌, All, arith, refl, is_empty,
  Bool-cases, if◌then◌else◌,
}
use mathlib.Core.List.{append_assoc, append-nil}
use theo_forge.Dag.Grammar.{
  Ast, name, conj, disj, IsName, OrExpr, conjunction, or, AndExpr, atom, and, Atom, named, negated,
  grouped,
}
use theo_forge.Dag.Task.{Task, scan, needs_parens, then_task, or_task}
use theo_forge.Dag.Scan.{scan-and, scan-or_cases}

append-nonempty : (a b : Text) → is_empty a ≡ false → is_empty (a ++ b) ≡ false
append-nonempty [] b h = ground arith
append-nonempty (c ∷ a) b h = refl

name-nonempty : (s : Text) → s ≢ [] → is_empty s ≡ false
name-nonempty [] h = absurd (h refl)
name-nonempty (c ∷ s) h = refl

mutual
  or-nonempty : {s : Text} {e : Ast} → OrExpr s e → is_empty s ≡ false
  or-nonempty (conjunction h) = and-nonempty h
  or-nonempty (or p q h hp hq k e) = rw e (append-nonempty _ _ (or-nonempty h))

  and-nonempty : {s : Text} {e : Ast} → AndExpr s e → is_empty s ≡ false
  and-nonempty (atom h) = Atom-nonempty h
  and-nonempty (and p q h hp hq k e) = rw e (append-nonempty _ _ (and-nonempty h))

  Atom-nonempty : {s : Text} {e : Ast} → Atom s e → is_empty s ≡ false
  Atom-nonempty {s} (named h) = name-nonempty s h.0
  Atom-nonempty (negated h e) = rw e
  Atom-nonempty (grouped h e) = rw e

needs_parens-and : {s : Text} {e : Ast} → AndExpr s e → needs_parens s ≡ false
unfolding needs_parens scan
needs_parens-and {s} h = rw append-nil at (scan-and 0 [] h)

-- For a dependency expression, `needsParens` tells exactly those that are no conjunction.
pub needs_parens-false_iff :
    {s : Text} {e : Ast} → OrExpr s e → (needs_parens s ≡ false) ↔ AndExpr s e
unfolding needs_parens
needs_parens-false_iff {s} h = (
  λ f. elim (scan-or_cases h) [
    | inl c ↦ c
    | inr found ↦ absurd (ground (arith, rw append-nil at (found [])))
  ],
  needs_parens-and,
)

-- The operand that `Then` writes in front of the new conjunct.
operand : Text → Text
operand s = if needs_parens s then b'(' ∷ (s ++ text ")") else s

operand-and : {s : Text} {e : Ast} → OrExpr s e → AndExpr (operand s) e
unfolding operand
operand-and {s} h = elim (Bool-cases (needs_parens s)) [
  | inl wide ↦ rw wide (atom (grouped h refl))
  | inr narrow ↦ rw narrow ((needs_parens-false_iff h).0 narrow)
]

-- If `other.Depends` is a dependency expression, and `t` has a name that can stand in one, then after
-- `t.Then(other)` it is a conjunction: the whole previous expression, and the name of `t`.
pub then_task-and :
    (t other : Task) {e : Ast}
    → OrExpr other.depends e
    → IsName t.name
    → AndExpr (then_task t other).depends (conj e (name t.name))
unfolding then_task operand
then_task-and t other h n =
    rw (or-nonempty h)
      (and (text " ") (text " ") (operand-and h) (refl, tt) (refl, tt) (named n) refl)

-- If `other` has no dependency, `t.Then(other)` makes the name of `t` its expression.
pub then_task-first :
    (t other : Task)
    → other.depends ≡ []
    → IsName t.name
    → AndExpr (then_task t other).depends (name t.name)
unfolding then_task
then_task-first t other h n = rw h (atom (named n))

-- `t1.Then(other); t2.Then(other); …`
pub then_all : List Task → Task → Task
then_all [] other = other
then_all (t ∷ ts) other = then_all ts (then_task t other)

abbrev pub conj_names : Ast → List Task → Ast
conj_names e [] = e
conj_names e (t ∷ ts) = conj_names (conj e (name t.name)) ts

then_all-or :
    (ts : List Task) (other : Task) (e : Ast)
    → OrExpr other.depends e
    → All (λ t. IsName t.name) ts
    → OrExpr (then_all ts other).depends (conj_names e ts)
unfolding then_all
then_all-or [] other e h ns = h
then_all-or (t ∷ ts) other e h ns =
    then_all-or ts (then_task t other) _ (conjunction (then_task-and t other h ns.0)) ns.1

-- Calling `Then` for several tasks, whose names can stand in an expression, on a task that has a
-- dependency expression makes a conjunction of that expression and all their names, in the order of
-- the calls.
pub then_all-and :
    (t : Task) (ts : List Task) (other : Task) {e : Ast}
    → OrExpr other.depends e
    → All (λ t. IsName t.name) (t ∷ ts)
    → OrExpr (then_all (t ∷ ts) other).depends (conj_names (conj e (name t.name)) ts)
unfolding then_all
then_all-and t ts other h ns = then_all-or (t ∷ ts) other _ h ns

-- If both tasks have names that can stand in an expression, `x.Or(y)` is one operand: the
-- disjunction of the two names, whatever operator follows.
pub or_task-Atom :
    (x y : Task)
    → IsName x.name
    → IsName y.name
    → Atom (or_task x y) (disj (name x.name) (name y.name))
unfolding or_task
or_task-Atom x y n m =
    grouped
      (or (text " ") (text " ") (conjunction (atom (named n))) (refl, tt) (refl, tt)
        (atom (named m)) refl)
      (simp append_assoc)
