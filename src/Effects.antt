-- ===== src/Effects.antt =====
-- Code that keeps a state and can fail: what it returns, and the state that it leaves. The state stays
-- as it has been left where the code returns an error.
use theo_forge.Prelude.{Result, ok, err, ◌≡◌, refl, arith}

abbrev pub Stateful {ℓ} : Type 0 → Type ℓ → Type ℓ
Stateful S A = S → Result A × S

module _ {S : Type 0} where
  -- A value, or an error that ends the function.
  abbrev pub lift {ℓ} : {A : Type ℓ} → Result A → Stateful S A
  lift r s = (r, s)

  abbrev pub and_then {ℓ κ} :
      {A : Type ℓ} {B : Type κ} → Result A × S → (A → Stateful S B) → Result B × S
  and_then (err e, s) next = (err e, s)
  and_then (ok a, s) next = next a s

  -- The state, read.
  abbrev pub current : Stateful S S
  current s = (ok s, s)

  infixl 5 ◌>>=◌
  abbrev pub ◌>>=◌ {ℓ κ} :
      {A : Type ℓ} {B : Type κ} → Stateful S A → (A → Stateful S B) → Stateful S B
  ◌>>=◌ first next s = and_then (first s) next

  infixl 5 ◌>>◌
  abbrev pub ◌>>◌ {κ} : {B : Type κ} → Stateful S (Unit {0}) → Stateful S B → Stateful S B
  first >> rest = first >>= λ done. rest

  -- What a sequence returns comes of a value that its first part has returned.
  pub and_then-ok :
      {A B : Type 0} (r : Result A × S) (next : A → Stateful S B) {b : B}
      → (and_then r next).0 ≡ ok b
      → (a : A) × (r.0 ≡ ok a) × ((next a r.1).0 ≡ ok b)
  and_then-ok (ok a, t) next h = (a, refl, h)
  and_then-ok (err e, s) next h = ground (arith, h)

  pub and_then-result :
      {A B : Type 0} (r : Result A × S) (next : A → Stateful S B) (b : Result B)
      → ((a : A) × (r.0 ≡ ok a) × ((t : S) → (next a t).0 ≡ b))
      → (and_then r next).0 ≡ b
  and_then-result (ok c, t) next b (a, e, h) = let same : c ≡ a = cc in rw same (h t)
  and_then-result (err d, t) next b (a, e, h) = ground (arith, e)

  -- A value, and then a function that changes nothing of the state.
  pub lift-kept :
      {A B : Type 0} (r : Result A) (f : A → Stateful S B) (s : S)
      → ((a : A) → (f a s).1 ≡ s)
      → ((lift r >>= f) s).1 ≡ s
  lift-kept (ok a) f s h = h a
  lift-kept (err e) f s h = refl
