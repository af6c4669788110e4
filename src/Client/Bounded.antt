-- ===== src/Client/Bounded.antt =====
-- The bounded reading of a response in client/client.go, against the whole of what a reader yields.
use theo_forge.Prelude.{
  ℕ, zero, suc, ◌+◌, ◌-◌, ◌≤◌, ◌<◌, Text, Option, none, some, [], ◌∷◌, ◌++◌, length, length-append,
  leb, ltb, Result, ok, err, Error, cause, wrap, wrapping, decimal, response_too_large, take,
  take_all, take-append_left, take-append_right, length-take, ◌≡◌, refl, ◌↔◌, ◌⊎◌, inl, inr, arith,
  Bool-cases, Option-cases,
}
use theo_forge.Client.Transport.{Reader, chunk, last, at_end, read_all_limited, read_bounded_body}

-- All the bytes that a reader yields.
abbrev pub whole : Reader → Text
whole (chunk c r) = c ++ whole r
whole (last c ending) = c

-- How it ends: `none` is `io.EOF`.
abbrev pub failure : Reader → Option Error
failure (chunk c r) = failure r
failure (last c ending) = ending

-- A reader that has fewer bytes than are asked for is read to its end.
read_all_limited_short :
    (n : ℕ) (r : Reader)
    → length (whole r) < n
    → read_all_limited n r ≡ at_end (whole r) (failure r)
unfolding read_all_limited at_end
read_all_limited_short n (last c ending) h = ground (arith, h)
read_all_limited_short n (chunk c r) h =
    let rest =
      read_all_limited_short (n - length c) r (omega (arith, h, length-append c (whole r))) in
    elim (Option-cases (failure r)) [
      | inl e ↦ ground (arith, h, rest, e, length-append c (whole r))
      | inr (d, e) ↦ ground (arith, h, rest, e, length-append c (whole r))
    ]

-- What is read of a reader that has as many bytes as are asked for, or more.
abbrev IsCut : ℕ → Reader → Result Text → Type 0
IsCut n r out =
    (out ≡ ok (take n (whole r)))
    ⊎ ((d : Error) × (out ≡ err d) × (failure r ≡ some d) × (length (whole r) ≡ n))

read_all_limited_zero : (r : Reader) → read_all_limited 0 r ≡ ok []
unfolding read_all_limited
read_all_limited_zero (last c ending) = refl
read_all_limited_zero (chunk c r) = refl

read_all_limited_long :
    (n : ℕ) (r : Reader) → n ≤ length (whole r) → IsCut n r (read_all_limited n r)
unfolding read_all_limited at_end take
read_all_limited_long zero r h = inl (read_all_limited_zero r)
read_all_limited_long (suc n) (last c none) h = elim (Bool-cases (leb (length c) (suc n))) [
  | inl l ↦ inl (ground (arith, l, take_all (suc n) c (ground (arith, l))))
  | inr g ↦ inl (ground (arith, g))
]
read_all_limited_long (suc n) (last c (some d)) h = elim (Bool-cases (leb (length c) (suc n))) [
  | inl l ↦ inr (d, ground (arith, l), refl, ground (arith, l, h))
  | inr g ↦ inl (ground (arith, g))
]
read_all_limited_long (suc n) (chunk c r) h = elim (Bool-cases (leb (length c) (suc n))) [
  | inl l ↦
      let fits : length c ≤ suc n = ground (arith, l) in
      elim (read_all_limited_long (suc n - length c) r
        (omega (arith, h, fits, length-append c (whole r)))) [
          | inl e ↦ inl (ground (arith, l, e, take-append_right (suc n) c (whole r) fits))
          | inr (d, e, f, k) ↦
              inr (d, ground (arith, l, e), f, omega (arith, k, fits, length-append c (whole r)))
        ]
  | inr g ↦
      let same = take-append_left (suc n) c (whole r) (ground (arith, g)) in
      inl (ground (arith, g, same))
]

-- A response of at most `limit` bytes is read whole, or fails as its reader fails; a longer one is an
-- error: ErrResponseTooLarge, or, if it has just one byte more than the limit and its reader fails
-- there, the error of the reader.
pub read_bounded_body_lem :
    (r : Reader) (limit : ℕ)
    → ((length (whole r) ≤ limit)
        × (read_bounded_body r limit
            ≡ wrapping "client: read response: %w" [] (at_end (whole r) (failure r))))
      ⊎ ((limit < length (whole r))
          × ((e : Error) × (read_bounded_body r limit ≡ err e)
              × ((cause e ≡ response_too_large)
                  ⊎ ((d : Error) × (failure r ≡ some d)
                      × (length (whole r) ≡ limit + 1)
                      × (e ≡ wrap "client: read response: %w" [] d)))))
unfolding read_bounded_body at_end
read_bounded_body_lem r limit = elim (Bool-cases (ltb limit (length (whole r)))) [
  | inl l ↦
      let over : limit + 1 ≤ length (whole r) = ground (arith, l) in
      let size = length-take (limit + 1) (whole r) over in
      inr (
        ground (arith, l),
        elim (read_all_limited_long (limit + 1) r over) [
          | inl e ↦ (
            wrap "%w (limit %d bytes)" (decimal limit ∷ []) response_too_large,
            ground (arith, e, size),
            inl refl,
          )
          | inr (d, e, f, k) ↦
              (wrap "client: read response: %w" [] d, ground (arith, e), inr (d, f, k, refl))
        ],
      )
  | inr g ↦
      let fits : length (whole r) ≤ limit = ground (arith, g) in
      let short = read_all_limited_short (limit + 1) r (omega (arith, fits)) in
      inl (
        fits,
        elim (Option-cases (failure r)) [
          | inl e ↦ ground (arith, short, e, g)
          | inr (d, e) ↦ ground (arith, short, e, g)
        ],
      )
]

-- What is returned is all that the reader has, which is no more than the limit.
pub read_bounded_body_iff :
    (r : Reader) (limit : ℕ) (body : Text)
    → (read_bounded_body r limit ≡ ok body)
      ↔ ((whole r ≡ body) × (failure r ≡ none) × (length body ≤ limit))
unfolding at_end
read_bounded_body_iff r limit body = elim (read_bounded_body_lem r limit) [
  | inl (fits, same) ↦ elim (Option-cases (failure r)) [
    | inl e ↦ (λ h. ground (arith, h, e, same, fits), λ (a, b, c). ground (arith, same, e, a))
    | inr (d, e) ↦ (λ h. ground (arith, h, e, same), λ (a, b, c). ground (arith, e, b))
  ]
  | inr (long, (e, same, why)) ↦
      (λ h. ground (arith, h, same), λ (a, b, c). ground (arith, long, c, a))
]
