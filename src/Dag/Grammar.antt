-- ===== src/Dag/Grammar.antt =====
-- The grammar of a dependency expression, as Argo documents it: `!` binds tighter than `&&`, and `&&`
-- tighter than `||`; both group to the left. It does not refer to the code of dag.go.
use theo_forge.Prelude.{ℕ, ◌≡◌, ◌≢◌, Text, text, [], ◌∷◌, ◌++◌, All}

pub data Ast : Type 0 where
  name : Text → Ast
  neg : Ast → Ast
  conj disj : Ast → Ast → Ast

-- A byte that a task's name, or a name with a result, can hold.
abbrev pub IsPlain : ℕ → Type 0
IsPlain c = (c ≢ b'(') × (c ≢ b')') × (c ≢ b'|')

abbrev pub IsNameByte : ℕ → Type 0
IsNameByte c = IsPlain c × (c ≢ b'&') × (c ≢ b'!') × (c ≢ b' ')

abbrev pub IsName : Text → Type 0
IsName s = (s ≢ []) × All IsNameByte s

abbrev pub IsBlank : Text → Type 0
IsBlank s = All (λ c. c ≡ b' ') s

mutual
  pub data OrExpr : Text → Ast → Type 0 where
    conjunction : {s : Text} {e : Ast} → AndExpr s e → OrExpr s e
    or :
        {s a b : Text} {e f : Ast} (p q : Text)
        → OrExpr a e
        → IsBlank p
        → IsBlank q
        → AndExpr b f
        → s ≡ a ++ (p ++ (text "||" ++ (q ++ b)))
        → OrExpr s (disj e f)

  pub data AndExpr : Text → Ast → Type 0 where
    atom : {s : Text} {e : Ast} → Atom s e → AndExpr s e
    and :
        {s a b : Text} {e f : Ast} (p q : Text)
        → AndExpr a e
        → IsBlank p
        → IsBlank q
        → Atom b f
        → s ≡ a ++ (p ++ (text "&&" ++ (q ++ b)))
        → AndExpr s (conj e f)

  pub data Atom : Text → Ast → Type 0 where
    named : {s : Text} → IsName s → Atom s (name s)
    negated : {s a : Text} {e : Ast} → Atom a e → s ≡ b'!' ∷ a → Atom s (neg e)
    grouped : {s a : Text} {e : Ast} → OrExpr a e → s ≡ b'(' ∷ (a ++ text ")") → Atom s e
