-- ===== src/Build/Retries.antt =====
-- The limit of a retry strategy of parameter.go, as its model prints it.
use theo_forge.Prelude.{
  ℕ, zero, suc, false, Text, none, some, [], ◌∷◌, eqb, if◌then◌else◌, value_from,
  value_from-decimal, decimal-first, ◌≡◌, refl, ap, ◌⊎◌, inl, inr, arith, Option-cases,
}
use theo_forge.Int.{ℤ, pos, negsuc, decimal_int}
use theo_forge.Model.Basic.{nil, str}
use theo_forge.Build.Shared.{RetryStrategy, build_retry_strategy}

-- What comes after a minus sign.
abbrev negative : ℕ → ℤ
negative zero = pos zero
negative (suc n) = negsuc n

-- The whole number that a text of decimal digits stands for, with a minus sign before it or none.
abbrev pub read_int : Text → ℤ
read_int [] = pos 0
read_int (c ∷ s) = if eqb c b'-' then negative (value_from 0 s) else pos (value_from 0 (c ∷ s))

pub read_int-decimal_int : (i : ℤ) → read_int (decimal_int i) ≡ i
unfolding decimal_int
read_int-decimal_int (pos n) =
    let (d, s, k, e) = decimal-first n in
    let sign : eqb d b'-' ≡ false = ground (arith, k) in
    let same : value_from 0 (d ∷ s) ≡ n = rw e at (value_from-decimal n) in
    rw (e, sign) (ap pos same)
read_int-decimal_int (negsuc n) = ap negative (value_from-decimal (suc n))

-- The limit of a retry strategy is absent from its model if it is nil, and otherwise printed so that it can be read back,
-- whatever int it is.
pub build_retry_strategy-limit :
    (r : RetryStrategy)
    → ((r.limit ≡ none) × ((build_retry_strategy r).limit ≡ nil))
      ⊎ ((i : ℤ) × (s : Text) × (r.limit ≡ some i)
          × ((build_retry_strategy r).limit ≡ str s)
          × (read_int s ≡ i))
unfolding build_retry_strategy
build_retry_strategy-limit r = elim (Option-cases r.limit) [
  | inl e ↦ inl (e, rw e refl)
  | inr (i, e) ↦ inr (i, decimal_int i, e, rw e refl, read_int-decimal_int i)
]
