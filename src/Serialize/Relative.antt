-- ===== src/Serialize/Relative.antt =====
-- `filepath.Rel` between clean absolute paths, and when serialize/serialize.go takes its result to
-- lead out of the directory.
use theo_forge.Prelude.{
  ℕ, true, false, Text, text, some, List, [], ◌∷◌, ◌++◌, eqb, is_empty, ◌==◌, ==_iff, has_prefix,
  All, All-append_right, Bool-cases, ok, ◌≡◌, ◌≢◌, refl, sym, ap, ◌∙◌, ◌⊎◌, ◌↔◌, inl, inr, arith,
}
use mathlib.Core.List.{append-nil}
use theo_forge.Serialize.Filepath.{
  join_slash, is_abs, elements, base_elements, ups, rel_elements, rel, kept,
}
use theo_forge.Serialize.Files.{escapes}
use theo_forge.Serialize.Segments.{IsElement, rooted, split-rooted, clean-rooted, kept-rooted}

-- The elements of the second path go on from those of the first.
abbrev pub Extends : List Text → List Text → Type 0
Extends bs ts = (more : List Text) × (ts ≡ bs ++ more)

-- A relative path that begins with `..` leads out.
up_first : (ws : List Text) → escapes (ok (join_slash (text ".." ∷ ws))) ≡ true
unfolding escapes join_slash has_prefix ◌==◌
up_first [] = refl
up_first (w ∷ ws) = refl

not_slash : (c : ℕ) → c ≢ b'/' → eqb c b'/' ≡ false
not_slash c n = elim (Bool-cases (eqb c b'/')) [
  | inl e ↦ elim (n (ground (arith, e))) [ ]
  | inr e ↦ e
]

-- An element alone, or with a slash after it, does not begin like `..` or `../`.
alone : (w : Text) → IsElement w → escapes (ok w) ≡ false
unfolding escapes has_prefix ◌==◌
alone [] e = ground (arith, e.nonempty)
alone (a ∷ []) e = ground (arith)
alone (a ∷ b ∷ []) e = ground (arith, e.no_up)
alone (a ∷ b ∷ c ∷ w) e = ground (arith, not_slash c e.plain.1.1.0)

followed : (w s : Text) → IsElement w → escapes (ok (w ++ b'/' ∷ s)) ≡ false
unfolding escapes has_prefix ◌==◌
followed [] s e = ground (arith, e.nonempty)
followed (a ∷ []) s e = ground (arith)
followed (a ∷ b ∷ []) s e = ground (arith, e.no_up)
followed (a ∷ b ∷ c ∷ w) s e = ground (arith, not_slash c e.plain.1.1.0)

-- A relative path that begins with another element does not lead out.
element_first :
    (w : Text) (ws : List Text) → IsElement w → escapes (ok (join_slash (w ∷ ws))) ≡ false
unfolding join_slash
element_first w [] e = alone w e
element_first w (v ∷ ws) e = followed w (join_slash (v ∷ ws)) e

nothing_first : escapes (ok (text ".")) ≡ false
unfolding escapes has_prefix ◌==◌
nothing_first = refl

-- What `Rel` makes of the elements leads out exactly if the second path does not go on from the first.
rel_elements_cases :
    (bs ts : List Text)
    → All IsElement bs
    → All IsElement ts
    → ((more : List Text) × (ts ≡ bs ++ more) × (rel_elements bs ts ≡ some more))
      ⊎ (((ws : List Text) × (rel_elements bs ts ≡ some (text ".." ∷ ws))) × (¬ Extends bs ts))
unfolding rel_elements ups
rel_elements_cases [] ts h k = inl (ts, refl, refl)
rel_elements_cases (b ∷ bs) [] h k = inr ((ups bs, refl), λ (more, e). ground (arith, e))
rel_elements_cases (b ∷ bs) (t ∷ ts) h k = elim (Bool-cases (b == t)) [
  | inl e ↦
      let same = (==_iff b t).0 e in
      elim (rel_elements_cases bs ts h.1 k.1) [
        | inl (more, f, g) ↦ inl (more, rw (same, f) refl, rw e g)
        | inr ((ws, g), n) ↦ inr ((ws, rw e g), λ (more, f). n (more, ground (arith, f)))
      ]
  | inr e ↦ inr (
    (ups bs ++ t ∷ ts, rw (e, h.0.no_up) refl),
    λ (more, f). let same : b ≡ t = ground (arith, f) in ground (arith, e, (==_iff b t).1 same),
  )
]

join_slash-nonempty :
    (w : Text) (ws : List Text) → IsElement w → is_empty (join_slash (w ∷ ws)) ≡ false
unfolding join_slash
join_slash-nonempty w [] e = e.nonempty
join_slash-nonempty [] (v ∷ ws) e = ground (arith, e.nonempty)
join_slash-nonempty (c ∷ w) (v ∷ ws) e = refl

nonempty-== : (s : Text) → is_empty s ≡ false → (s == []) ≡ false
unfolding ◌==◌
nonempty-== [] h = ground (arith, h)
nonempty-== (c ∷ s) h = refl

elements-rooted : (ws : List Text) → All IsElement ws → elements (rooted ws) ≡ [] ∷ ws
unfolding elements ◌==◌ join_slash
elements-rooted [] h = refl
elements-rooted (w ∷ ws) h =
    rw (nonempty-== (join_slash (w ∷ ws)) (join_slash-nonempty w ws h.0)) (split-rooted w ws h)

base_elements-rooted : (ws : List Text) → All IsElement ws → base_elements (rooted ws) ≡ [] ∷ ws
unfolding base_elements ◌==◌
base_elements-rooted ws h = elements-rooted ws h

rel-same :
    (bs ts : List Text)
    → All IsElement bs
    → All IsElement ts
    → (rooted bs == rooted ts) ≡ true
    → rel (rooted bs) (rooted ts) ≡ ok (text ".")
unfolding rel is_abs
rel-same bs ts h k e = rw (clean-rooted bs h, clean-rooted ts k, e) refl

rel-other :
    (bs ts ws : List Text)
    → All IsElement bs
    → All IsElement ts
    → (rooted bs == rooted ts) ≡ false
    → rel_elements bs ts ≡ some ws
    → rel (rooted bs) (rooted ts) ≡ ok (join_slash ws)
unfolding rel is_abs rel_elements ◌==◌
rel-other bs ts ws h k e f =
    rw (clean-rooted bs h, clean-rooted ts k, base_elements-rooted bs h, elements-rooted ts k, e, f)
      refl

rooted-injective :
    (bs ts : List Text) → All IsElement bs → All IsElement ts → rooted bs ≡ rooted ts → bs ≡ ts
rooted-injective bs ts h k e = sym (kept-rooted bs h) ∙ ap (kept true) e ∙ kept-rooted ts k

stays : (more : List Text) → All IsElement more → escapes (ok (join_slash more)) ≡ false
unfolding escapes has_prefix ◌==◌ join_slash
stays [] h = refl
stays (w ∷ ws) h = element_first w ws h.0

-- A path is taken to stay inside of a directory exactly if its elements go on from the directory's.
pub escapes-rel_iff :
    (bs ts : List Text)
    → All IsElement bs
    → All IsElement ts
    → (escapes (rel (rooted bs) (rooted ts)) ≡ false) ↔ Extends bs ts
escapes-rel_iff bs ts h k = elim (Bool-cases (rooted bs == rooted ts)) [
  | inl e ↦
      let same = rooted-injective bs ts h k ((==_iff (rooted bs) (rooted ts)).0 e) in
      (λ out. ([], sym same ∙ sym (append-nil bs)), λ ext. rw (rel-same bs ts h k e) nothing_first)
  | inr e ↦ elim (rel_elements_cases bs ts h k) [
    | inl (more, f, g) ↦ (
      λ out. (more, f),
      λ ext.
          rw (rel-other bs ts more h k e g)
            (stays more (All-append_right IsElement bs more (rw f at k))),
    )
    | inr ((ws, g), n) ↦ (
      λ out. ground (arith, out, rel-other bs ts (text ".." ∷ ws) h k e g, up_first ws),
      λ ext. elim (n ext) [ ],
    )
  ]
]
