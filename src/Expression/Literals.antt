-- ===== src/Expression/Literals.antt =====
-- The literals that expr/expr.go writes, read back by the rule of Argo's expressions: in single quotes,
-- two quotes stand for one.
use theo_forge.Prelude.{
  ℕ, Bool, true, false, Text, text, Option, none, some, String, ap, [], ◌∷◌, ◌++◌, eqb,
  if◌then◌else◌, ◌≡◌, refl, inl, inr, arith, Bool-cases,
}
use mathlib.Core.List.{append_assoc}
use theo_forge.Expression.Terms.{
  Expr, argo_escape, quoted, str, constant, string_method, contains, matches, starts_with,
  ends_with,
}

-- A byte of the value, before the rest of it.
unfoldable pub prepend : ℕ → Option (Text × Text) → Option (Text × Text)
prepend c none = none
prepend c (some (v, rest)) = some (c ∷ v, rest)

-- The value of a literal and what follows it: `seen` tells whether the byte before was a quote that may
-- have closed it.
unfoldable pub read_from : Bool → Text → Option (Text × Text)
read_from false [] = none
read_from true [] = some ([], [])
read_from false (c ∷ s) = if eqb c 39 then read_from true s else prepend c (read_from false s)
read_from true (c ∷ s) = if eqb c 39 then prepend 39 (read_from false s) else some ([], c ∷ s)

-- Reading from the byte after the first quote.
unfoldable pub read_literal : Text → Option (Text × Text)
read_literal s = read_from false s

-- No quote follows.
abbrev pub StartsUnquoted : Text → Type 0
StartsUnquoted [] = Unit
StartsUnquoted (c ∷ s) = eqb c 39 ≡ false

-- An escaped text, its closing quote, and what follows, are read back as the text and what follows.
pub read_literal-argo_escape :
    (v rest : Text)
    → StartsUnquoted rest
    → read_literal (argo_escape v ++ 39 ∷ rest) ≡ some (v, rest)
unfolding read_literal read_from argo_escape prepend
read_literal-argo_escape [] [] h = refl
read_literal-argo_escape [] (c ∷ rest) h = ground (arith, h)
read_literal-argo_escape (c ∷ v) rest h =
    let more = read_literal-argo_escape v rest h in
    elim (Bool-cases (eqb c 39)) [
      | inl e ↦ let quote : c ≡ 39 = ground (arith, e) in ground (arith, quote, more)
      | inr e ↦ ground (arith, e, more)
    ]

-- A text that has the literal of `value` after `prefix`, and `after` behind it.
pub record HasLiteral (whole prefix value after : Text) : Type 0 where
  pub body : Text
  pub parts : whole ≡ prefix ++ 39 ∷ body
  pub is_read : read_literal body ≡ some (value, after)

quoted-HasLiteral :
    (prefix value after : Text)
    → StartsUnquoted after
    → HasLiteral (prefix ++ (quoted value ++ after)) prefix value after
unfolding quoted
quoted-HasLiteral prefix value after h = record {
  body = argo_escape value ++ 39 ∷ after;
  parts = ap (λ t. prefix ++ 39 ∷ t) (append_assoc (argo_escape value) (text "'") after);
  is_read = read_literal-argo_escape value after h;
}

method-HasLiteral :
    (method : String) (e : Expr) (s : Text)
    → HasLiteral (string_method method e s).repr (e.repr ++ text method) s (text ")")
unfolding string_method
method-HasLiteral method e s =
    rw (← append_assoc e.repr (text method) (quoted s ++ text ")"))
      (quoted-HasLiteral (e.repr ++ text method) s (text ")") refl)

-- Whatever the text is, quotes and all, the string constant, and the argument of `Contains`, `Matches`,
-- `StartsWith` and `EndsWith`, is one literal that is read back as that text, and is followed by what
-- the method writes behind it.
pub literal_lem :
    (e : Expr) (s : Text)
    → HasLiteral (constant (str s)).repr [] s []
      × HasLiteral (contains e s).repr (e.repr ++ text ".contains(") s (text ")")
      × HasLiteral (matches e s).repr (e.repr ++ text ".matches(") s (text ")")
      × HasLiteral (starts_with e s).repr (e.repr ++ text ".startsWith(") s (text ")")
      × HasLiteral (ends_with e s).repr (e.repr ++ text ".endsWith(") s (text ")")
unfolding constant quoted contains matches starts_with ends_with
literal_lem e s = (
  record {
    body = argo_escape s ++ text "'";
    parts = refl;
    is_read = read_literal-argo_escape s [] tt;
  },
  method-HasLiteral ".contains(" e s,
  method-HasLiteral ".matches(" e s,
  method-HasLiteral ".startsWith(" e s,
  method-HasLiteral ".endsWith(" e s,
)
