-- ===== src/Serialize/Contained.antt =====
-- `containedJoin` of serialize/serialize.go: which names lead into a directory.
use theo_forge.Prelude.{
  Bool, true, false, ◌||◌, Text, text, List, [], ◌∷◌, ◌++◌, is_empty, ◌==◌, All, Bool-cases,
  Result-cases, ok, err, Error, wrapping, wrapping-eq-ok, fail_if, ◌≡◌, refl, sym, ap, ◌∙◌, ◌⊎◌,
  ◌↔◌, inl, inr, arith, >>=-eq-ok,
}
use theo_forge.Effects.{lift, lift-kept, and_then-ok}
use theo_forge.Serialize.Filepath.{is_abs, clean, join, rel, abs, kept}
use theo_forge.Serialize.Files.{Disk, System, escapes, resolved, contained_join}
use theo_forge.Serialize.Segments.{IsElement, rooted, kept-IsElement, clean-is_abs, clean-rooted}
use theo_forge.Serialize.Relative.{escapes-rel_iff}

-- A clean absolute path.
abbrev pub IsAbsolute : Text → Type 0
IsAbsolute p = (ws : List Text) × All IsElement ws × (p ≡ rooted ws)

-- A path in a directory, or that of the directory.
pub record IsInside (dir p : Text) : Type 0 where
  pub elements : List Text
  pub more : List Text
  pub above : All IsElement elements
  pub below : All IsElement (elements ++ more)
  pub dir_path : dir ≡ rooted elements
  pub path : p ≡ rooted (elements ++ more)

clean-IsAbsolute : (path : Text) → is_abs path ≡ true → IsAbsolute (clean path)
clean-IsAbsolute path h = (kept true path, kept-IsElement path, clean-is_abs path h)

is_abs-append : (dir s : Text) → is_abs dir ≡ true → is_abs (dir ++ s) ≡ true
unfolding is_abs
is_abs-append [] s h = ground (arith, h)
is_abs-append (c ∷ dir) s h = h

is_abs-nonempty : (dir : Text) → is_abs dir ≡ true → is_empty dir ≡ false
unfolding is_abs
is_abs-nonempty [] h = ground (arith, h)
is_abs-nonempty (c ∷ dir) h = refl

join-IsAbsolute : (dir name : Text) → is_abs dir ≡ true → IsAbsolute (join dir name)
unfolding join
join-IsAbsolute dir name h = elim (Bool-cases (is_empty name)) [
  | inl e ↦ rw (is_abs-nonempty dir h, e) (clean-IsAbsolute dir h)
  | inr e ↦
      rw (is_abs-nonempty dir h, e) (clean-IsAbsolute (dir ++ b'/' ∷ name) (is_abs-append dir _ h))
]

IsAbsolute-is_abs : (p : Text) → IsAbsolute p → is_abs p ≡ true
unfolding is_abs
IsAbsolute-is_abs p (ws, h, e) = rw e refl

IsAbsolute-clean : (p : Text) → IsAbsolute p → clean p ≡ p
IsAbsolute-clean p (ws, h, e) = rw e (clean-rooted ws h)

pair : {A B : Type 0} {x : A × B} {a : A} {b : B} → x.0 ≡ a → x.1 ≡ b → x ≡ (a, b)
pair e f = rw (← e, ← f) refl

contained_join-state :
    (sys : System) (dir name : Text) (d : Disk) → (contained_join sys dir name d).1 ≡ d
unfolding contained_join
contained_join-state sys dir name d =
    lift-kept (fail_if (is_empty name || (name == text ".") || (name == text "..")) _) _ d λ named.
      lift-kept (fail_if (is_abs name) _) _ d λ relative.
        lift-kept (wrapping "serialize: resolve dir: %w" [] (abs sys.getwd (clean dir))) _ d
          λ abs_dir. lift-kept (fail_if (escapes (rel _ _)) _) _ d λ inside. refl

-- Where a name leads that is accepted: into the directory, once its links are followed.
pub record IsContained (sys : System) (d : Disk) (dir name p : Text) : Type 0 where
  pub named : (is_empty name || (name == text ".") || (name == text "..")) ≡ false
  pub relative : is_abs name ≡ false
  pub abs_dir : Text
  pub absolute : abs sys.getwd (clean dir) ≡ ok abs_dir
  pub joined : p ≡ clean (join (resolved abs_dir (sys.eval_symlinks d abs_dir)) name)
  pub inside : IsInside (resolved abs_dir (sys.eval_symlinks d abs_dir)) p

fail_if-ok : (test : Bool) (e : Error) {done : Unit {0}} → fail_if test e ≡ ok done → test ≡ false
fail_if-ok true e h = ground (arith, h)
fail_if-ok false e h = refl

-- A path of a relative name in a clean directory.
module _ (sys : System) (started : (wd : Text) → sys.getwd ≡ ok wd → is_abs wd ≡ true)
    (followed : (d : Disk) (dir r : Text)
      → is_abs dir ≡ true
      → sys.eval_symlinks d dir ≡ ok r
      → (is_abs r ≡ true) × (clean r ≡ r)) where
  abs-IsAbsolute : (path p : Text) → abs sys.getwd path ≡ ok p → IsAbsolute p
  unfolding abs
  abs-IsAbsolute path p h = elim (Bool-cases (is_abs path)) [
    | inl e ↦
        let same : clean path ≡ p = ground (arith, e, h) in rw (← same) (clean-IsAbsolute path e)
    | inr e ↦
        let (wd, one, more) = >>=-eq-ok sys.getwd (λ wd. ok (join wd path)) (rw e at h) in
        let same : join wd path ≡ p = ground (arith, more) in
        rw (← same) (join-IsAbsolute wd path (started wd one))
  ]

  resolved-IsAbsolute :
      (d : Disk) (dir : Text) → IsAbsolute dir → IsAbsolute (resolved dir (sys.eval_symlinks d dir))
  unfolding resolved
  resolved-IsAbsolute d dir a = elim (Result-cases (sys.eval_symlinks d dir)) [
    | inl (r, e) ↦
        let (b, c) = followed d dir r (IsAbsolute-is_abs dir a) e in
        rw (e, ← c) (clean-IsAbsolute r b)
    | inr (f, e) ↦ rw e a
  ]

  base-IsAbsolute :
      (d : Disk) (dir abs_dir : Text)
      → abs sys.getwd (clean dir) ≡ ok abs_dir
      → IsAbsolute (resolved abs_dir (sys.eval_symlinks d abs_dir))
  base-IsAbsolute d dir abs_dir h =
      resolved-IsAbsolute d abs_dir (abs-IsAbsolute (clean dir) abs_dir h)

  -- The test of `containedJoin`, for a name in a clean absolute directory.
  escapes-IsInside :
      (base name : Text)
      → IsAbsolute base
      → (escapes (rel base (clean (join base name))) ≡ false)
        ↔ IsInside base (clean (join base name))
  escapes-IsInside base name a =
      let (bs, above, dir_path) = a in
      let (ts, below, path) = join-IsAbsolute base name (IsAbsolute-is_abs base a) in
      let cleaned : clean (join base name) ≡ rooted ts = ap clean path ∙ clean-rooted ts below in
      (
        λ h.
            let (more, e) = (escapes-rel_iff bs ts above below).0 (rw (cleaned, dir_path) at h) in
            record {
              elements = bs;
              more = more;
              above = above;
              below = rw e at below;
              dir_path = dir_path;
              path = cleaned ∙ ap rooted e;
            },
        λ k.
            rw (k.path, k.dir_path)
              ((escapes-rel_iff k.elements (k.elements ++ k.more) k.above k.below).1
                (k.more, refl)),
      )

  -- `containedJoin` accepts exactly the names that are not empty, `.`, `..` or absolute and lead, when
  -- they are joined and cleaned, to the directory or into it; its links are followed first.
  pub contained_join_iff :
      (dir name p : Text) (d : Disk)
      → ((contained_join sys dir name d).0 ≡ ok p) ↔ IsContained sys d dir name p
  unfolding contained_join
  contained_join_iff dir name p d = (
    λ h.
        let (_, one, h1) =
          and_then-ok
            (lift (fail_if (is_empty name || (name == text ".") || (name == text "..")) _) d) _ h in
        let (_, two, h2) = and_then-ok (lift (fail_if (is_abs name) _) d) _ h1 in
        let (abs_dir, three, h3) =
          and_then-ok
            (lift (wrapping "serialize: resolve dir: %w" [] (abs sys.getwd (clean dir))) d) _ h2 in
        let absolute = wrapping-eq-ok _ [] (abs sys.getwd (clean dir)) three in
        let base = resolved abs_dir (sys.eval_symlinks d abs_dir) in
        let (_, four, h4) =
          and_then-ok (lift (fail_if (escapes (rel base (clean (join base name)))) _) d) _ h3 in
        let same : clean (join base name) ≡ p = ground (arith, h4) in
        record {
          named = fail_if-ok (is_empty name || (name == text ".") || (name == text "..")) _ one;
          relative = fail_if-ok (is_abs name) _ two;
          abs_dir = abs_dir;
          absolute = absolute;
          joined = sym same;
          inside = rw (← same) (
              (escapes-IsInside base name (base-IsAbsolute d dir abs_dir absolute)).0
                (fail_if-ok (escapes (rel base (clean (join base name)))) _ four));
        },
    λ k.
        let base = resolved k.abs_dir (sys.eval_symlinks d k.abs_dir) in
        let inside : IsInside base (clean (join base name)) = rw (← k.joined) k.inside in
        let stays =
          (escapes-IsInside base name (base-IsAbsolute d dir k.abs_dir k.absolute)).1 inside in
        rw (k.named, k.relative, k.absolute, stays, k.joined) refl,
  )

  pub contained_join-cases :
      (dir name : Text) (d : Disk)
      → ((p : Text) × (contained_join sys dir name d ≡ (ok p, d)) × IsContained sys d dir name p)
        ⊎ ((e : Error) × (contained_join sys dir name d ≡ (err e, d)))
  contained_join-cases dir name d =
      let kept = contained_join-state sys dir name d in
      elim (Result-cases (contained_join sys dir name d).0) [
        | inl (p, e) ↦ inl (p, pair e kept, (contained_join_iff dir name p d).0 e)
        | inr (f, e) ↦ inr (f, pair e kept)
      ]
