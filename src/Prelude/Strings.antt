-- ===== src/Prelude/Strings.antt =====
-- Go strings as lists of bytes, with the comparison `==` and decimal printing.
use Prim.Native.Nat.{ℕ, zero, suc, ◌+◌, ◌-◌, ◌*◌, ◌/◌, ◌%◌, ◌≤◌, ◌<◌}
use Prim.Native.Char.{code}
use Prim.Native.String.{String}
use mathlib.Core.Path.{◌≡◌, refl, ap}
use mathlib.Core.Logic.{◌↔◌, ◌⊎◌, inl, inr}
use mathlib.Core.Bool.{Bool, true, false, ◌&&◌}
use mathlib.Core.List.{List, [], ◌∷◌}
use native.Mathlib.Omega.{arith}
use theo_forge.Prelude.Tests.{eqb, ltb, if◌then◌else◌}

abbrev pub Text : Type 0
Text = List ℕ

-- The bytes of an ASCII literal.
abbrev pub text : String → Text
text String.[] = []
text (String.◌∷◌ c s) = code c ∷ text s

infix 50 ◌==◌
unfoldable pub ◌==◌ : Text → Text → Bool
[] == [] = true
[] == (d ∷ t) = false
(c ∷ s) == [] = false
(c ∷ s) == (d ∷ t) = eqb c d && (s == t)

==-sound : (s t : Text) → (s == t) ≡ true → s ≡ t
unfolding ◌==◌
==-sound [] [] h = refl
==-sound [] (d ∷ t) h = ground arith
==-sound (c ∷ s) [] h = ground arith
==-sound (c ∷ s) (d ∷ t) h = ground (arith, ==-sound s t)

pub ==_self : (s : Text) → (s == s) ≡ true
unfolding ◌==◌
==_self [] = refl
==_self (c ∷ s) = ground (arith, ==_self s)

pub ==_iff : (s t : Text) → ((s == t) ≡ true) ↔ (s ≡ t)
==_iff s t = (==-sound s t, λ e. (ground (arith, ==_self s)))

-- `fmt.Sprintf("%d", n)` of a number that is not negative: the digits before those in `acc`.
decimal_from : ℕ → ℕ → Text → Text
decimal_from zero n acc = acc
decimal_from (suc f) n acc =
    let rest = decimal_from f (n / 10) ((n % 10 + 48) ∷ acc) in
    if ltb n 10 then (n + 48) ∷ acc else rest

unfoldable pub decimal : ℕ → Text
unfolding decimal_from
decimal n = decimal_from (suc n) n []

digit : (n : ℕ) → (n < 10) ⊎ (10 ≤ n)
digit n = ground arith

-- The number that decimal digits stand for, after those whose number is `a`.
abbrev pub value_from : ℕ → Text → ℕ
value_from a [] = a
value_from a (c ∷ s) = value_from (a * 10 + (c - 48)) s

decimal_from-value :
    (f n : ℕ) (acc : Text) → n < f → value_from 0 (decimal_from f n acc) ≡ value_from n acc
unfolding decimal_from
decimal_from-value zero n acc h = ground (arith, h)
decimal_from-value (suc f) n acc h = elim (digit n) [
  | inl small ↦
      let same : 0 * 10 + (n + 48 - 48) ≡ n = omega arith in
      let e : ltb n 10 ≡ true = ground (arith, small) in rw e (ap (λ m. value_from m acc) same)
  | inr large ↦
      let same : n / 10 * 10 + (n % 10 + 48 - 48) ≡ n = omega arith in
      let e : ltb n 10 ≡ false = ground (arith, large) in
      let fuel : n / 10 < f = omega (arith, h, large) in
      let more = decimal_from-value f (n / 10) ((n % 10 + 48) ∷ acc) fuel in rw e (rw same at more)
]

-- The digits of a number stand for it: all of them are printed.
pub value_from-decimal : (n : ℕ) → value_from 0 (decimal n) ≡ n
unfolding decimal
value_from-decimal n = decimal_from-value (suc n) n [] (omega arith)

decimal_from-first :
    (f n : ℕ) (c : ℕ) (acc : Text)
    → 48 ≤ c
    → (d : ℕ) × (s : Text) × (48 ≤ d) × (decimal_from f n (c ∷ acc) ≡ d ∷ s)
unfolding decimal_from
decimal_from-first zero n c acc h = (c, acc, h, refl)
decimal_from-first (suc f) n c acc h = elim (digit n) [
  | inl small ↦
      let e : ltb n 10 ≡ true = ground (arith, small) in (n + 48, c ∷ acc, omega arith, rw e refl)
  | inr large ↦
      let e : ltb n 10 ≡ false = ground (arith, large) in
      let (d, s, k, more) = decimal_from-first f (n / 10) (n % 10 + 48) (c ∷ acc) (omega arith) in
      (d, s, k, rw e more)
]

-- There is a digit.
pub decimal-first : (n : ℕ) → (d : ℕ) × (s : Text) × (48 ≤ d) × (decimal n ≡ d ∷ s)
unfolding decimal decimal_from
decimal-first n = elim (digit n) [
  | inl small ↦
      let e : ltb n 10 ≡ true = ground (arith, small) in (n + 48, [], omega arith, rw e refl)
  | inr large ↦
      let e : ltb n 10 ≡ false = ground (arith, large) in
      let (d, s, k, more) = decimal_from-first n (n / 10) (n % 10 + 48) [] (omega arith) in
      (d, s, k, rw e more)
]
