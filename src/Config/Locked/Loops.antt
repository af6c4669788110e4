-- ===== src/Config/Locked/Loops.antt =====
-- The loops of config/named_hooks.go over the named hooks, against the removal and the listing in one piece.
use theo_forge.Prelude.{
  ℕ, suc, ◌-◌, true, false, Text, Option, none, some, List, [], ◌∷◌, ◌++◌, ◌==◌, take, length, leb,
  ◌≡◌, refl, inl, inr, arith, Bool-cases,
}
use mathlib.Core.List.{append-nil}
use theo_forge.Config.Global.{NamedHook}
use theo_forge.Config.Named.{remove, list_ids}
use theo_forge.Config.Locked.{listed, index_of, next, drop, fill}

next-none : (o : Option ℕ) → next o ≡ none → o ≡ none
next-none none e = refl
next-none (some i) e = ground (arith, e)

next-some : (o : Option ℕ) (i : ℕ) → next o ≡ some i → (j : ℕ) × (o ≡ some j) × (i ≡ suc j)
next-some none i e = ground (arith, e)
next-some (some j) i e = (j, refl, ground (arith, e))

module _ {A : Type 0} where
  pub remove-index_of-none :
      (id : Text) (hs : List (NamedHook A)) → index_of id hs ≡ none → remove id hs ≡ (hs, false)
  unfolding index_of remove
  remove-index_of-none id [] e = refl
  remove-index_of-none id (h ∷ hs) e = elim (Bool-cases (h.id == id)) [
    | inl q ↦ ground (arith, q, e)
    | inr q ↦
        let below : next (index_of id hs) ≡ none = ground (arith, q, e) in
        rw (q, remove-index_of-none id hs (next-none (index_of id hs) below)) refl
  ]

  pub remove-index_of-some :
      (id : Text) (hs : List (NamedHook A)) (i : ℕ)
      → index_of id hs ≡ some i
      → remove id hs ≡ (take i hs ++ drop (suc i) hs, true)
  unfolding index_of remove take
  remove-index_of-some id [] i e = ground (arith, e)
  remove-index_of-some id (h ∷ hs) i e = elim (Bool-cases (h.id == id)) [
    | inl q ↦ let first : 0 ≡ i = ground (arith, q, e) in rw (q, ← first) refl
    | inr q ↦
        let below : next (index_of id hs) ≡ some i = ground (arith, q, e) in
        let (j, found, same) = next-some (index_of id hs) i below in
        rw (q, same, remove-index_of-some id hs j found) refl
  ]

  pub fill-length : (hs : List (NamedHook A)) → fill (length hs) hs ≡ listed (list_ids hs)
  unfolding fill
  fill-length hs =
      let fits : leb (length hs) (length hs) ≡ true = ground arith in
      let all : length hs - length hs ≡ 0 = omega arith in
      rw (fits, all, append-nil (list_ids hs)) refl
