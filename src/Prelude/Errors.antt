-- ===== src/Prelude/Errors.antt =====
-- Go's `error` results. A message is its format string with the string arguments, not expanded; the
-- sentinels of model/errors.go are constructors, so that `errors.Is` is a search through `wrap`.
use Prim.Native.Nat.{ℕ}
use Prim.Native.String.{String}
use mathlib.Core.Path.{◌≡◌, refl}
use mathlib.Core.Logic.{◌⊎◌, inl, inr}
use mathlib.Core.Bool.{Bool, true, false}
use mathlib.Core.List.{List, [], ◌∷◌, Forall₂}
use native.Mathlib.Omega.{arith}
use theo_forge.Prelude.Strings.{Text}

pub data Error : Type 0 where
  path_traversal empty_image entrypoint_missing template_ambiguous template_missing : Error
  invalid_name invalid_namespace response_too_large redacted_token_loaded invalid_timeout : Error
  -- a panic that leaves the function
  panicked : Error
  -- `&NodeNameConflict{Name: name}`
  name_conflict : Text → Error
  -- `&InvalidType{Expected: expected, Got: got}`
  invalid_type : Text → Text → Error
  -- `&APIError{StatusCode: status, Message: message}`
  api_error : ℕ → Text → Error
  -- `fmt.Errorf(format, args...)` with no `%w`
  errorf : String → List Text → Error
  -- `fmt.Errorf(format, args..., cause)` with `%w`
  wrap : String → List Text → Error → Error

-- A value and a nil error, or an error.
pub data Result {ℓ} (V : Type ℓ) : Type ℓ where
  err : Error → Result V
  ok : V → Result V

-- `v, err := first; if err != nil { return err }`, and what follows.
infixl 5 ◌>>=◌
abbrev pub ◌>>=◌ {ℓ κ} : {V : Type ℓ} {W : Type κ} → Result V → (V → Result W) → Result W
err failure >>= next = err failure
ok value >>= next = next value

-- `if err := first; err != nil { return err }`, and what follows.
infixl 5 ◌>>◌
abbrev pub ◌>>◌ {κ} : {W : Type κ} → Result (Unit {0}) → Result W → Result W
first >> rest = first >>= λ done. rest

-- `if err != nil { return fmt.Errorf(format, args..., err) }`
abbrev pub wrapping {ℓ} : {A : Type ℓ} → String → List Text → Result A → Result A
wrapping format args (ok a) = ok a
wrapping format args (err e) = err (wrap format args e)

-- `if test { return err }`
abbrev pub fail_if : Bool → Error → Result (Unit {0})
fail_if true e = err e
fail_if false e = ok tt

-- The innermost error, which `errors.Is` finds.
abbrev pub cause : Error → Error
cause (wrap format args e) = cause e
cause e = e

-- What a sequence returns comes of a value that its first part has returned.
pub >>=-eq-ok {ℓ κ} :
    {V : Type ℓ} {W : Type κ} (first : Result V) (next : V → Result W) {w : W}
    → (first >>= next) ≡ ok w
    → (v : V) × (first ≡ ok v) × (next v ≡ ok w)
>>=-eq-ok (err failure) next h = ground arith
>>=-eq-ok (ok v) next h = (v, refl, h)

pub wrapping-eq-ok {ℓ} :
    {A : Type ℓ} (format : String) (args : List Text) (m : Result A) {a : A}
    → wrapping format args m ≡ ok a
    → m ≡ ok a
wrapping-eq-ok format args (ok b) h = h
wrapping-eq-ok format args (err e) h = ground arith

pub Result-cases {ℓ} :
    {A : Type ℓ} (m : Result A) → ((a : A) × (m ≡ ok a)) ⊎ ((e : Error) × (m ≡ err e))
Result-cases (ok a) = inl (a, refl)
Result-cases (err e) = inr (e, refl)

-- Code that goes on has passed its test.
pub fail_if-eq-ok {ℓ} :
    {A : Type ℓ} (test : Bool) (e : Error) (m : Result A) {a : A}
    → (fail_if test e >> m) ≡ ok a
    → (test ≡ false) × (m ≡ ok a)
fail_if-eq-ok true e m h = ground arith
fail_if-eq-ok false e m h = (refl, h)

-- A bind whose second part does not fail has the first part's error.
pub >>=-eq-err {ℓ κ} :
    {A : Type ℓ} {B : Type κ} (m : Result A) (f : A → B) {e : Error}
    → (m >>= λ a. ok (f a)) ≡ err e
    → m ≡ err e
>>=-eq-err (ok a) f h = ground arith
>>=-eq-err (err d) f h = ground arith

pub wrapping-eq-err {ℓ} :
    {A : Type ℓ} (format : String) (args : List Text) (m : Result A) {e : Error}
    → wrapping format args m ≡ err e
    → (d : Error) × (m ≡ err d) × (e ≡ wrap format args d)
wrapping-eq-err format args (ok a) h = ground arith
wrapping-eq-err format args (err d) h = (d, refl, ground arith)

-- The part of a bind that has failed.
pub >>=-err-cases {ℓ κ} :
    {A : Type ℓ} {B : Type κ} (m : Result A) (f : A → Result B) {e : Error}
    → (m >>= f) ≡ err e
    → (m ≡ err e) ⊎ ((a : A) × (m ≡ ok a) × (f a ≡ err e))
>>=-err-cases (ok a) f h = inr (a, refl, h)
>>=-err-cases (err d) f h = inl (ground arith)

-- `for _, x := range xs { m, err := f(x); if err != nil { return err }; out = append(out, m) }`
unfoldable pub traverse {ℓ κ} :
    {A : Type ℓ} {B : Type κ} → (A → Result B) → List A → Result (List B)
traverse f [] = ok []
traverse f (x ∷ xs) = do y ← f x; ys ← traverse f xs; ok (y ∷ ys)

module _ {ℓ κ} {A : Type ℓ} {B : Type κ} (f : A → Result B) where
  -- A loop that succeeds has called `f` on every element, in order.
  pub traverse_sound :
      (xs : List A) (ys : List B) → traverse f xs ≡ ok ys → Forall₂ (λ x y. f x ≡ ok y) xs ys
  unfolding traverse
  traverse_sound [] [] h = Forall₂.nil
  traverse_sound [] (y ∷ ys) h = ground arith
  traverse_sound (x ∷ xs) ys h =
      let (y, one, more) = >>=-eq-ok (f x) _ h in
      let (zs, rest, same) = >>=-eq-ok (traverse f xs) _ more in
      let e : y ∷ zs ≡ ys = cc in rw (← e) (Forall₂.cons one (traverse_sound xs zs rest))

  pub traverse_complete :
      {xs : List A} {ys : List B} → Forall₂ (λ x y. f x ≡ ok y) xs ys → traverse f xs ≡ ok ys
  unfolding traverse
  traverse_complete Forall₂.nil = refl
  traverse_complete (Forall₂.cons one more) = rw (one, traverse_complete more)

  -- `e` is the error of the first element that fails.
  pub data FirstFailure : List A → Error → Type (ℓ ⊔ κ) where
    here : {x : A} {xs : List A} {e : Error} → f x ≡ err e → FirstFailure (x ∷ xs) e
    later :
        {x : A} {y : B} {xs : List A} {e : Error}
        → f x ≡ ok y
        → FirstFailure xs e
        → FirstFailure (x ∷ xs) e

  pub traverse_failure : (xs : List A) (e : Error) → traverse f xs ≡ err e → FirstFailure xs e
  unfolding traverse
  traverse_failure [] e h = ground arith
  traverse_failure (x ∷ xs) e h = elim (Result-cases (f x)) [
    | inl (y, one) ↦
        later one
          (traverse_failure xs e (>>=-eq-err (traverse f xs) (λ ys. y ∷ ys) (rw (one, ◌>>=◌) at h)))
    | inr (d, one) ↦ here (ground arith)
  ]
