-- ===== src/Config/Dispatching.antt =====
-- The dispatch of the named hooks of config/named_hooks.go: what runs, and what its error is.
use theo_forge.Prelude.{
  Option, none, some, List, [], ◌∷◌, ◌++◌, String, Error, wrap, ◌≡◌, refl, ◌⊎◌, inl, inr, arith,
  Option-cases,
}
use theo_forge.Config.Global.{NamedHook}
use theo_forge.Config.Named.{dispatch}

module _ {A : Type 0} where
  -- What goes on after a call only if it has no error.
  unfoldable pub and_then : A × Option Error → (A → A × Option Error) → A × Option Error
  and_then r k = elim r.1 [ none ↦ k r.0 | some e ↦ r ]

  dispatch-append_nil :
      (format : String) (ks : List (NamedHook A)) (m : A)
      → dispatch format ks m ≡ and_then (dispatch format [] m) (dispatch format ks)
  unfolding dispatch and_then
  dispatch-append_nil format ks m = refl

  and_then-some :
      (m : A) (e : Error) (k : A → A × Option Error) → (m, some e) ≡ and_then (m, some e) k
  unfolding and_then
  and_then-some m e k = refl

  dispatch-next :
      (format : String) (h : NamedHook A) (hs : List (NamedHook A)) (m : A)
      → (h.fn m).1 ≡ none
      → dispatch format (h ∷ hs) m ≡ dispatch format hs (h.fn m).0
  unfolding dispatch
  dispatch-next format h hs m e = rw e refl

  dispatch-stop :
      (format : String) (h : NamedHook A) (hs : List (NamedHook A)) (m : A) {d : Error}
      → (h.fn m).1 ≡ some d
      → dispatch format (h ∷ hs) m ≡ ((h.fn m).0, some (wrap format (h.id ∷ []) d))
  unfolding dispatch
  dispatch-stop format h hs m e = rw e refl

  -- A dispatch to a list of named hooks runs the first part of it, and then, on what that leaves,
  -- the rest, unless a hook of the first part failed: then its result is the result.
  pub dispatch-append :
      (format : String) (hs ks : List (NamedHook A)) (m : A)
      → dispatch format (hs ++ ks) m ≡ and_then (dispatch format hs m) (dispatch format ks)
  dispatch-append format [] ks m = dispatch-append_nil format ks m
  dispatch-append format (h ∷ hs) ks m = elim (Option-cases (h.fn m).1) [
    | inl e ↦
        rw (dispatch-next format h hs m e, dispatch-next format h (hs ++ ks) m e)
          (dispatch-append format hs ks (h.fn m).0)
    | inr (_, e) ↦
        rw (dispatch-stop format h hs m e, dispatch-stop format h (hs ++ ks) m e)
          (and_then-some (h.fn m).0 _ (dispatch format ks))
  ]

  -- The hook whose error ends a dispatch: those before it have run without one.
  pub StoppedBy : List (NamedHook A) → A → NamedHook A → A → Error → Type 0
  StoppedBy [] m h n e = ⊥
  StoppedBy (g ∷ hs) m h n e =
      ((g ≡ h) × (h.fn m ≡ (n, some e))) ⊎ (((g.fn m).1 ≡ none) × StoppedBy hs (g.fn m).0 h n e)

  -- If a dispatch fails, its error is the error of a hook of the list, wrapped with that hook's
  -- name; the hooks before it ran without an error, and the value is what that hook left.
  pub dispatch-error :
      (format : String) (hs : List (NamedHook A)) (m n : A) (e : Error)
      → dispatch format hs m ≡ (n, some e)
      → (h : NamedHook A) × (d : Error) × StoppedBy hs m h n d × (e ≡ wrap format (h.id ∷ []) d)
  unfolding dispatch StoppedBy
  dispatch-error format [] m n e h = ground arith
  dispatch-error format (g ∷ hs) m n e q = elim (Option-cases (g.fn m).1) [
    | inl k ↦
        let (h, d, s, w) = dispatch-error format hs (g.fn m).0 n e (rw k at q) in
        (h, d, inr (k, s), w)
    | inr (d, k) ↦
        let r : ((g.fn m).0, some (wrap format (g.id ∷ []) d)) ≡ (n, some e) = rw k at q in
        (g, d, inl (refl, ground (arith, k, r)), ground (arith, r))
  ]
