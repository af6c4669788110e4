-- ===== src/Config/Passing.antt =====
-- What passes the hooks of config/config.go and of config/named_hooks.go, and as what.
use theo_forge.Prelude.{
  String, ok, err, Option, none, some, List, [], ◌∷◌, Error, wrap, ◌≡◌, refl, ap, ◌↔◌, arith,
  Option-cases, inl, inr,
}
use theo_forge.Config.Global.{NamedHook, run_hooks}
use theo_forge.Config.Named.{dispatch}

module _ {A : Type 0} where
  -- Hooks that cannot fail, each given what the one before it has made.
  pub Through : List (A → A) → A → A → Type 0
  Through [] m n = m ≡ n
  Through (h ∷ hs) m n = (k : A) × (h m ≡ k) × Through hs k n

  -- Hooks with a name, none of which fails.
  pub Unfailing : List (NamedHook A) → A → A → Type 0
  Unfailing [] m n = m ≡ n
  Unfailing (h ∷ hs) m n = (k : A) × ((h.fn m).0 ≡ k) × ((h.fn m).1 ≡ none) × Unfailing hs k n

  -- The hooks without names come first, then those with names.
  pub record Passes (hooks : List (A → A)) (named : List (NamedHook A)) (m n : A) : Type 0 where
    pub between : A
    pub through : Through hooks m between
    pub unfailing : Unfailing named between n

  pub run_hooks_iff : (hs : List (A → A)) (m n : A) → (run_hooks hs m ≡ n) ↔ Through hs m n
  unfolding run_hooks Through
  run_hooks_iff [] m n = (λ h. h, λ h. h)
  run_hooks_iff (h ∷ hs) m n = (
    λ e. (h m, refl, (run_hooks_iff hs (h m) n).0 e),
    λ (k, e, t). rw e ((run_hooks_iff hs k n).1 t),
  )

  pub dispatch_iff :
      (format : String) (hs : List (NamedHook A)) (m n : A)
      → (dispatch format hs m ≡ (n, none)) ↔ Unfailing hs m n
  unfolding dispatch Unfailing
  dispatch_iff format [] m n = (λ e. ap (λ p. p.0) e, λ e. rw e refl)
  dispatch_iff format (h ∷ hs) m n = elim (Option-cases (h.fn m).1) [
    | inl e ↦ (
      λ q. ((h.fn m).0, refl, e, (dispatch_iff format hs (h.fn m).0 n).0 (rw (e, dispatch) at q)),
      λ (k, f, e2, u). rw (e, dispatch) ((dispatch_iff format hs (h.fn m).0 n).1 (rw f u)),
    )
    | inr (d, e) ↦ (
      λ q.
          let failed : ((h.fn m).0, some (wrap format (h.id ∷ []) d)) ≡ (n, none) =
            rw (e, dispatch) at q in
          let wrong : some (wrap format (h.id ∷ []) d) ≡ none = ap (λ p. p.1) failed in
          ground (arith, wrong),
      λ (k, f, e2, u). ground (arith, e, e2),
    )
  ]

  settled_iff :
      (d : A × Option Error) (fail : Error → Error) (n : A)
      → (elim d.1 [ none ↦ ok d.0 | some e ↦ err (fail e) ] ≡ ok n) ↔ (d ≡ (n, none))
  settled_iff (k, none) fail n = (
    λ h. let same : k ≡ n = cc in rw same refl,
    λ h. let same : k ≡ n = ap (λ p. p.0) h in rw same refl,
  )
  settled_iff (k, some e) fail n = (
    λ h. ground (arith, h),
    λ h. let wrong : some e ≡ none = ap (λ p. p.1) h in ground (arith, wrong),
  )

  -- What comes of the hooks is returned exactly if it passes them all.
  pub run_hooks-dispatch_iff :
      (format : String) (hooks : List (A → A)) (named : List (NamedHook A)) (fail : Error → Error)
      (m n : A)
      → (elim (dispatch format named (run_hooks hooks m)).1 [
        | none ↦ ok (dispatch format named (run_hooks hooks m)).0
        | some e ↦ err (fail e)
      ]
          ≡ ok n)
        ↔ Passes hooks named m n
  run_hooks-dispatch_iff format hooks named fail m n =
      let end = settled_iff (dispatch format named (run_hooks hooks m)) fail n in
      let all = dispatch_iff format named (run_hooks hooks m) n in
      (
        λ h. record {
          between = run_hooks hooks m;
          through = (run_hooks_iff hooks m _).0 refl;
          unfailing = all.0 (end.0 h);
        },
        λ p.
            let same : run_hooks hooks m ≡ p.between =
              (run_hooks_iff hooks m p.between).1 p.through in
            end.1 (all.1 (rw same p.unfailing)),
      )

  pub Passes-none : (m n : A) → Passes [] [] m n → m ≡ n
  unfolding Through Unfailing
  Passes-none m n p = rw p.through p.unfailing
