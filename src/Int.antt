-- ===== src/Int.antt =====
-- Signed machine integers (`int`, `int32`, `int64`) as whole numbers: `negsuc n` is -(n + 1).
use theo_forge.Prelude.{ℕ, suc, Text, ◌∷◌, decimal}

pub data ℤ : Type 0 where
  pos : ℕ → ℤ
  negsuc : ℕ → ℤ

-- `fmt.Sprintf("%d", i)`
unfoldable pub decimal_int : ℤ → Text
decimal_int (pos n) = decimal n
decimal_int (negsuc n) = 45 ∷ decimal (suc n)
