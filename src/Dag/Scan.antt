-- ===== src/Dag/Scan.antt =====
-- What `scan`, the loop of `containsTopLevelOr`, does on a dependency expression.
use theo_forge.Prelude.{
  ℕ, suc, ◌≡◌, ◌⊎◌, inl, inr, true, Text, text, [], ◌∷◌, ◌++◌, All, arith, refl, ◌∙◌,
}
use mathlib.Core.List.{append_assoc}
use theo_forge.Dag.Grammar.{
  Ast, IsPlain, IsNameByte, IsBlank, OrExpr, conjunction, or, AndExpr, atom, and, Atom, named,
  negated, grouped,
}
use theo_forge.Dag.Task.{scan}

scan-plain : (d : ℕ) (s r : Text) → All IsPlain s → scan d (s ++ r) ≡ scan d r
unfolding scan
scan-plain d [] r h = refl
scan-plain d (c ∷ s) r h = ground (arith, scan-plain d s r h.1)

IsName-IsPlain : (s : Text) → All IsNameByte s → All IsPlain s
IsName-IsPlain [] h = tt
IsName-IsPlain (c ∷ s) h = (h.0.0, IsName-IsPlain s h.1)

IsBlank-IsPlain : (s : Text) → IsBlank s → All IsPlain s
IsBlank-IsPlain [] h = tt
IsBlank-IsPlain (c ∷ s) h = (ground arith, IsBlank-IsPlain s h.1)

-- Inside parentheses a pair of bars is passed over.
scan-bars : (d : ℕ) (r : Text) → scan (suc d) (text "||" ++ r) ≡ scan (suc d) r
unfolding scan
scan-bars d r = ground arith

scan-ands : (d : ℕ) (r : Text) → scan d (text "&&" ++ r) ≡ scan d r
unfolding scan
scan-ands d r = ground arith

scan-not : (d : ℕ) (r : Text) → scan d (b'!' ∷ r) ≡ scan d r
unfolding scan
scan-not d r = ground arith

scan-open : (d : ℕ) (r : Text) → scan d (b'(' ∷ r) ≡ scan (suc d) r
unfolding scan
scan-open d r = ground arith

scan-close : (d : ℕ) (r : Text) → scan (suc d) (b')' ∷ r) ≡ scan d r
unfolding scan
scan-close d r = ground arith

-- At the top level a pair of bars is found.
scan-found : (r : Text) → scan 0 (text "||" ++ r) ≡ true
unfolding scan
scan-found r = ground arith

joined :
    (a p o q b r : Text) → (a ++ (p ++ (o ++ (q ++ b)))) ++ r ≡ a ++ (p ++ (o ++ (q ++ (b ++ r))))
joined a p o q b r = simp append_assoc

-- An operator between blanks, and its right operand, if each of them is passed over.
scan-operand :
    (d : ℕ) (p o q b r : Text)
    → IsBlank p
    → IsBlank q
    → ((t : Text) → scan d (o ++ t) ≡ scan d t)
    → scan d (b ++ r) ≡ scan d r
    → scan d (p ++ (o ++ (q ++ (b ++ r)))) ≡ scan d r
scan-operand d p o q b r hp hq ho hb =
    scan-plain d p _ (IsBlank-IsPlain p hp)
    ∙ (ho _ ∙ (scan-plain d q _ (IsBlank-IsPlain q hq) ∙ hb))

-- Below the top level a whole expression is passed over, and so is a conjunction at any level.
mutual
  pub scan-or_deep :
      {s : Text} {e : Ast} (d : ℕ) (r : Text) → OrExpr s e → scan (suc d) (s ++ r) ≡ scan (suc d) r
  scan-or_deep d r (conjunction h) = scan-and (suc d) r h
  scan-or_deep d r (or {a = a} {b = b} p q h hp hq k e) = rw e (
      rw joined (
        scan-or_deep d _ h
        ∙ scan-operand (suc d) p (text "||") q b r hp hq (scan-bars d) (scan-and (suc d) r k)))

  pub scan-and : {s : Text} {e : Ast} (d : ℕ) (r : Text) → AndExpr s e → scan d (s ++ r) ≡ scan d r
  scan-and d r (atom h) = scan-Atom d r h
  scan-and d r (and {a = a} {b = b} p q h hp hq k e) = rw e (
      rw joined
        (scan-and d _ h ∙ scan-operand d p (text "&&") q b r hp hq (scan-ands d) (scan-Atom d r k)))

  scan-Atom : {s : Text} {e : Ast} (d : ℕ) (r : Text) → Atom s e → scan d (s ++ r) ≡ scan d r
  scan-Atom {s} d r (named h) = scan-plain d s r (IsName-IsPlain s h.1)
  scan-Atom d r (negated h e) = rw e (scan-not d _ ∙ scan-Atom d r h)
  scan-Atom d r (grouped {a = a} h e) =
      rw e (scan-open d _ ∙ (rw append_assoc (scan-or_deep d (text ")" ++ r) h) ∙ scan-close d r))

-- An expression is a conjunction, or the scan finds its bars whatever follows.
pub scan-or_cases :
    {s : Text} {e : Ast} → OrExpr s e → AndExpr s e ⊎ ((r : Text) → scan 0 (s ++ r) ≡ true)
scan-or_cases (conjunction h) = inl h
scan-or_cases (or {a = a} {b = b} p q h hp hq k e) = inr λ r. rw e (
    rw joined (elim (scan-or_cases h) [
      | inl c ↦ scan-and 0 _ c ∙ (scan-plain 0 p _ (IsBlank-IsPlain p hp) ∙ scan-found _)
      | inr found ↦ found _
    ]))
