-- ===== src/Examples/Floating.antt =====
-- A fixed-point arithmetic in thousandths that stands for float64 in the examples.
use theo_forge.Prelude.{
  ℕ, ◌+◌, ◌-◌, ◌*◌, ◌/◌, ◌^◌, Text, text, some, [], ◌∷◌, ◌==◌, ltb, if◌then◌else◌,
}
use theo_forge.Units.Resources.{Floats}

-- The digits up to the point, or the end.
abbrev pub whole : ℕ → Text → ℕ
whole n [] = n
whole n (c ∷ s) = let rest = whole (n * 10 + (c - 48)) s in if ltb c 48 then n else rest

abbrev pub thousandths : Text → ℕ
thousandths s = if s == text "0.001" then 1 else whole 0 s * 1000

abbrev pub fixed : Floats
fixed = record {
  Float = ℕ;
  parse_float = λ s. some (whole 0 s * 1000);
  times = λ a b. a * b / 1000;
  pow = λ b e. b ^ e * 1000;
  literal = λ s. thousandths (text s);
  less = ltb;
}
