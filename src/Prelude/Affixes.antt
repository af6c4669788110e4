-- ===== src/Prelude/Affixes.antt =====
-- Go's package strings: prefixes, suffixes, and what is trimmed.
use Prim.Native.Nat.{ℕ, zero, suc, ◌-◌, ◌≤◌}
use mathlib.Core.Path.{◌≡◌, refl, ap}
use mathlib.Core.Bool.{Bool, true, false, ◌&&◌, ◌||◌}
use mathlib.Core.List.{List, [], ◌∷◌, ◌++◌, append-nil}
use native.Mathlib.Omega.{arith}
use theo_forge.Prelude.Tests.{eqb, if◌then◌else◌}
use theo_forge.Prelude.Lists.{is_empty, length}
use theo_forge.Prelude.Strings.{Text, ◌==◌}

-- `strings.HasPrefix(s, prefix)`
unfoldable pub has_prefix : Text → Text → Bool
has_prefix s [] = true
has_prefix [] (d ∷ p) = false
has_prefix (c ∷ s) (d ∷ p) = eqb c d && has_prefix s p

-- `strings.HasSuffix(s, suffix)`
unfoldable pub has_suffix : Text → Text → Bool
has_suffix [] q = is_empty q
has_suffix (c ∷ s) q = ((c ∷ s) == q) || has_suffix s q

-- `strings.TrimSuffix(s, suffix)`
unfoldable pub trim_suffix : Text → Text → Text
trim_suffix [] q = []
trim_suffix (c ∷ s) q = let rest = trim_suffix s q in if (c ∷ s) == q then [] else c ∷ rest

-- `strings.TrimRight(s, string(c))`
unfoldable pub trim_right : Text → ℕ → Text
trim_right [] d = []
trim_right (c ∷ s) d =
    let rest = trim_right s d in
    if is_empty rest then (if eqb c d then [] else c ∷ []) else c ∷ rest

pub has_prefix-append : (p s : Text) → has_prefix (p ++ s) p ≡ true
unfolding has_prefix
has_prefix-append [] s = refl
has_prefix-append (c ∷ p) s = ground (arith, has_prefix-append p s)

-- The first `n` elements.
unfoldable pub take {ℓ} : {A : Type ℓ} → ℕ → List A → List A
take zero xs = []
take (suc n) [] = []
take (suc n) (x ∷ xs) = x ∷ take n xs

pub length-take {ℓ} : {A : Type ℓ} (n : ℕ) (xs : List A) → n ≤ length xs → length (take n xs) ≡ n
unfolding take
length-take zero xs h = refl
length-take (suc n) [] h = ground (arith, h)
length-take (suc n) (x ∷ xs) h = ground (arith, length-take n xs, h)

pub take_all {ℓ} : {A : Type ℓ} (n : ℕ) (xs : List A) → length xs ≤ n → take n xs ≡ xs
unfolding take
take_all zero [] h = refl
take_all zero (x ∷ xs) h = ground (arith, h)
take_all (suc n) [] h = refl
take_all (suc n) (x ∷ xs) h = ap (λ ys. x ∷ ys) (take_all n xs (ground (arith, h)))

-- What is taken of two lists is taken of the first, and the rest of it of the second.
take-append {ℓ} :
    {A : Type ℓ} (n : ℕ) (xs ys : List A) → take n (xs ++ ys) ≡ take n xs ++ take (n - length xs) ys
unfolding take
take-append zero [] ys = refl
take-append (suc n) [] ys = let e : suc n - 0 ≡ suc n = omega arith in rw e refl
take-append zero (x ∷ xs) ys = let e : 0 - suc (length xs) ≡ 0 = omega arith in rw e refl
take-append (suc n) (x ∷ xs) ys =
    let e : suc n - suc (length xs) ≡ n - length xs = omega arith in
    rw e (ap (λ zs. x ∷ zs) (take-append n xs ys))

pub take-append_left {ℓ} :
    {A : Type ℓ} (n : ℕ) (xs ys : List A) → n ≤ length xs → take n (xs ++ ys) ≡ take n xs
unfolding take
take-append_left n xs ys h =
    let e : n - length xs ≡ 0 = omega (arith, h) in
    let same = take-append n xs ys in rw (e, append-nil (take n xs)) at same

pub take-append_right {ℓ} :
    {A : Type ℓ} (n : ℕ) (xs ys : List A)
    → length xs ≤ n
    → take n (xs ++ ys) ≡ xs ++ take (n - length xs) ys
take-append_right n xs ys h = let same = take-append n xs ys in rw (take_all n xs h) at same
