-- ===== src/Client/Endless.antt =====
-- The bounded reading of client/client.go, of a response whose body does not end.
use theo_forge.Prelude.{
  ℕ, zero, suc, ◌+◌, ◌-◌, ◌≤◌, ◌<◌, true, Text, Option, none, some, [], ◌∷◌, ◌++◌, length,
  length-append, leb, ltb, eqb, if◌then◌else◌, Result, ok, err, wrap, fail_if, decimal,
  response_too_large, take, length-take, Bool-cases, ◌≡◌, refl, inl, inr, arith, cause, Error, ◌>>◌,
}

-- A body that never ends, as the bytes of its reads.
abbrev pub Endless : Type 0
Endless = ℕ → Text

abbrev pub rest : Endless → Endless
rest r = λ k. r (suc k)

abbrev pub append : Text → Option Text → Option Text
append c none = none
append c (some more) = some (c ++ more)

-- `io.ReadAll(io.LimitReader(r, n))`, for at most `fuel` reads.
unfoldable pub read_reads : ℕ → ℕ → Endless → Option Text
read_reads zero n r = none
read_reads (suc fuel) n r =
    let more = read_reads fuel (n - length (r 0)) (rest r) in
    if eqb n 0
    then some []
    else if leb (length (r 0)) n
    then append (r 0) more
    else some (take n (r 0))

-- What is made of the bytes read.
unfoldable pub settle_reads : ℕ → Option Text → Option (Result Text)
settle_reads limit none = none
settle_reads limit (some body) = some (
    fail_if (ltb limit (length body))
      (wrap "%w (limit %d bytes)" (decimal limit ∷ []) response_too_large)
    >> ok body)

-- `readBoundedBody`, for at most `fuel` reads.
unfoldable pub read_bounded_reads : ℕ → Endless → ℕ → Option (Result Text)
read_bounded_reads fuel r limit = settle_reads limit (read_reads fuel (limit + 1) r)

-- Each read gives a byte or more.
abbrev pub IsFlowing : Endless → Type 0
IsFlowing r = (k : ℕ) → 1 ≤ length (r k)

read_reads_enough :
    (fuel n : ℕ) (r : Endless)
    → n < fuel
    → IsFlowing r
    → (body : Text) × (read_reads fuel n r ≡ some body) × (length body ≡ n)
unfolding read_reads
read_reads_enough zero n r h f = ground (arith, h)
read_reads_enough (suc fuel) n r h f = elim (Bool-cases (eqb n 0)) [
  | inl z ↦ ([], ground (arith, z), ground (arith, z))
  | inr p ↦ elim (Bool-cases (leb (length (r 0)) n)) [
    | inl l ↦
        let fits : length (r 0) ≤ n = ground (arith, l) in
        let (more, e, size) =
          read_reads_enough fuel (n - length (r 0)) (rest r) (omega (arith, f 0, h, fits))
            (λ k. f (suc k)) in
        (r 0 ++ more, ground (arith, p, l, e), omega (arith, size, fits, length-append (r 0) more))
    | inr g ↦ (take n (r 0), ground (arith, p, g), length-take n (r 0) (ground (arith, g)))
  ]
]

-- A body that never ends is given up after at most `limit + 2` calls of `Read`, if each gives a byte or more:
-- the reading ends, with ErrResponseTooLarge.
pub read_bounded_reads-ends :
    (r : Endless) (limit : ℕ)
    → IsFlowing r
    → (e : Error) × (read_bounded_reads (limit + 2) r limit ≡ some (err e))
      × (cause e ≡ response_too_large)
unfolding read_bounded_reads settle_reads
read_bounded_reads-ends r limit f =
    let (body, e, size) = read_reads_enough (limit + 2) (limit + 1) r (omega arith) f in
    let over : ltb limit (length body) ≡ true = ground (arith, size) in
    (wrap "%w (limit %d bytes)" (decimal limit ∷ []) response_too_large, rw (e, over) refl, refl)
