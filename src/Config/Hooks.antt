-- ===== src/Config/Hooks.antt =====
-- The named hooks of config/named_hooks.go: their names are distinct whatever the calls, what each
-- call does, and what a dispatch reaches.
use theo_forge.Prelude.{
  true, false, Text, Option, none, some, List, [], ◌∷◌, ◌++◌, ◌==◌, ==_iff, ==_self, is_empty,
  String, Error, Result, ok, err, ◌≡◌, ◌≢◌, refl, ap, inl, inr, ◌↔◌, arith, In, AllDistinct,
  AllDistinct-snoc, Bool-cases,
}
use theo_forge.Config.Global.{NamedHook}
use theo_forge.Config.Named.{registered, register, remove, list_ids}

-- A call that changes the list of the named hooks.
pub data Change (A : Type 0) : Type 0 where
  registering : String → Text → Option (A → A × Option Error) → Change A
  removing : Text → Change A

module _ {A : Type 0} where
  pub registered_iff :
      (name : Text) (hs : List (NamedHook A)) → (registered name hs ≡ true) ↔ In name (list_ids hs)
  unfolding registered list_ids
  registered_iff name [] = ground arith
  registered_iff name (h ∷ hs) = ground (arith, registered_iff name hs, ==_iff h.id name)

  pub list_ids-snoc :
      (hs : List (NamedHook A)) (h : NamedHook A)
      → list_ids (hs ++ h ∷ []) ≡ list_ids hs ++ h.id ∷ []
  unfolding list_ids
  list_ids-snoc [] h = refl
  list_ids-snoc (g ∷ hs) h = ap (λ l. g.id ∷ l) (list_ids-snoc hs h)

  -- A registration that can be made: the name is not empty and not taken, the function is not nil.
  pub CanRegister : Text → Option (A → A × Option Error) → List (NamedHook A) → Type 0
  CanRegister name none hs = ⊥
  CanRegister name (some f) hs = (is_empty name ≡ false) × (¬ (In name (list_ids hs)))

  -- What a call of `register` does: the hook stands last, or nothing changes and there is an error.
  pub data Registers (name : Text) (hs : List (NamedHook A))
      : Option (A → A × Option Error) → List (NamedHook A) × Result Text → Type 0 where
    added :
        {f : A → A × Option Error}
        → CanRegister name (some f) hs
        → Registers name hs (some f) (hs ++ record { id = name; fn = f } ∷ [], ok name)
    refused :
        {fn : Option (A → A × Option Error)} {e : Error}
        → ¬ CanRegister name fn hs
        → Registers name hs fn (hs, err e)

  -- Registering a named hook appends it and returns its name if the name is not empty, the function
  -- is not nil, and no hook has the name; otherwise it returns an error and changes nothing.
  pub register_lem :
      (duplicate : String) (hs : List (NamedHook A)) (name : Text)
      (fn : Option (A → A × Option Error))
      → Registers name hs fn (register duplicate hs name fn)
  unfolding register CanRegister
  register_lem duplicate hs name none = elim (Bool-cases (is_empty name)) [
    | inl e ↦ rw e (refused (λ h. h))
    | inr e ↦ rw e (refused (λ h. h))
  ]
  register_lem duplicate hs name (some f) = elim (Bool-cases (is_empty name)) [
    | inl e ↦ rw e (refused (λ h. ground (arith, e, h)))
    | inr e ↦ elim (Bool-cases (registered name hs)) [
      | inl r ↦ rw (e, r) (refused (λ h. h.1 ((registered_iff name hs).0 r)))
      | inr r ↦ rw (e, r) (added (e, λ h. ground (arith, r, (registered_iff name hs).1 h)))
    ]
  ]

  -- Where the names are distinct, the names after a removal are those before, except the one
  -- removed.
  pub remove_iff :
      (x id : Text) (hs : List (NamedHook A))
      → AllDistinct (list_ids hs)
      → In x (list_ids (remove id hs).0) ↔ (In x (list_ids hs) × (x ≢ id))
  unfolding remove list_ids
  remove_iff x id [] d = ground arith
  remove_iff x id (g ∷ hs) d = elim (Bool-cases (g.id == id)) [
    | inl e ↦
        let same = (==_iff g.id id).0 e in
        rw e (
          λ h. (inr h, λ q. d.0 (rw (same, ← q) h)),
          λ h. elim h.0 [ inl q ↦ elim (h.1 (ground (arith, q, same))) [ ] | inr k ↦ k ],
        )
    | inr e ↦
        let other : g.id ≢ id = λ q. ground (arith, e, (==_iff g.id id).1 q) in
        let rest = remove_iff x id hs d.1 in
        rw e (
          λ h. elim h [
            | inl q ↦ (inl q, λ r. other (ground (arith, q, r)))
            | inr k ↦ (inr (rest.0 k).0, (rest.0 k).1)
          ],
          λ h. elim h.0 [ inl q ↦ inl q | inr k ↦ inr (rest.1 (k, h.1)) ],
        )
  ]

  pub remove-found : (id : Text) (hs : List (NamedHook A)) → (remove id hs).1 ≡ registered id hs
  unfolding remove registered
  remove-found id [] = refl
  remove-found id (g ∷ hs) = elim (Bool-cases (g.id == id)) [
    | inl e ↦ rw e refl
    | inr e ↦ rw e (remove-found id hs)
  ]

  pub remove-AllDistinct :
      (id : Text) (hs : List (NamedHook A))
      → AllDistinct (list_ids hs)
      → AllDistinct (list_ids (remove id hs).0)
  unfolding remove list_ids
  remove-AllDistinct id [] d = d
  remove-AllDistinct id (g ∷ hs) d = elim (Bool-cases (g.id == id)) [
    | inl e ↦ rw e d.1
    | inr e ↦ rw e (λ h. d.0 ((remove_iff g.id id hs d.1).0 h).0, remove-AllDistinct id hs d.1)
  ]

  pub register-AllDistinct :
      (duplicate : String) (hs : List (NamedHook A)) (name : Text)
      (fn : Option (A → A × Option Error))
      → AllDistinct (list_ids hs)
      → AllDistinct (list_ids (register duplicate hs name fn).0)
  unfolding CanRegister
  register-AllDistinct duplicate hs name fn d =
      elim (register_lem duplicate hs name fn) as (λ fn r _. AllDistinct (list_ids r.0)) [
        | added {f} c ↦
            rw (list_ids-snoc hs (record { id = name; fn = f }))
              (AllDistinct-snoc (list_ids hs) name d c.1)
        | refused c ↦ d
      ]

  pub remove-snoc :
      (hs : List (NamedHook A)) (h : NamedHook A)
      → ¬ (In h.id (list_ids hs))
      → remove h.id (hs ++ h ∷ []) ≡ (hs, true)
  unfolding remove list_ids
  remove-snoc [] h n = rw (==_self h.id) refl
  remove-snoc (g ∷ hs) h n =
      let other : (g.id == h.id) ≡ false = elim (Bool-cases (g.id == h.id)) [
        | inl e ↦ elim (n (inl ((==_iff g.id h.id).0 e))) [ ]
        | inr e ↦ e
      ] in
      rw (other, remove-snoc hs h (λ k. n (inr k))) refl

  pub change : List (NamedHook A) → Change A → List (NamedHook A)
  change hs (registering duplicate name fn) = (register duplicate hs name fn).0
  change hs (removing id) = (remove id hs).0

  pub changes : List (NamedHook A) → List (Change A) → List (NamedHook A)
  changes hs [] = hs
  changes hs (c ∷ cs) = changes (change hs c) cs

  change-AllDistinct :
      (hs : List (NamedHook A)) (c : Change A)
      → AllDistinct (list_ids hs)
      → AllDistinct (list_ids (change hs c))
  unfolding change
  change-AllDistinct hs (registering duplicate name fn) d =
      register-AllDistinct duplicate hs name fn d
  change-AllDistinct hs (removing id) d = remove-AllDistinct id hs d

  -- Whatever is registered and removed, in any order, on a list of named hooks with distinct names,
  -- no two hooks have the same name.
  pub changes-AllDistinct :
      (hs : List (NamedHook A)) (cs : List (Change A))
      → AllDistinct (list_ids hs)
      → AllDistinct (list_ids (changes hs cs))
  unfolding changes
  changes-AllDistinct hs [] d = d
  changes-AllDistinct hs (c ∷ cs) d =
      changes-AllDistinct (change hs c) cs (change-AllDistinct hs c d)

  -- Removing the hook that has just been registered gives the list before, and reports that there
  -- was one.
  pub remove-register :
      (duplicate : String) (hs : List (NamedHook A)) (name : Text)
      (fn : Option (A → A × Option Error))
      → (register duplicate hs name fn).1 ≡ ok name
      → remove name (register duplicate hs name fn).0 ≡ (hs, true)
  unfolding CanRegister
  remove-register duplicate hs name fn e =
      elim (register_lem duplicate hs name fn)
          as (λ fn r _. r.1 ≡ ok name → remove name r.0 ≡ (hs, true)) [
            | added {f} c ↦ λ _. remove-snoc hs (record { id = name; fn = f }) c.1
            | refused c ↦ λ q. ground (arith, q)
          ]
        e
