-- ===== src/Serialize/Segments.antt =====
-- The clean absolute paths of path/filepath: a slash, and elements with a slash between each and the next.
use theo_forge.Prelude.{
  ℕ, true, false, Text, text, List, [], ◌∷◌, ◌++◌, eqb, is_empty, ◌==◌, All, Bool-cases, ◌≡◌, ◌≢◌,
  refl, ap, ◌∙◌, inl, inr, arith,
}
use mathlib.Core.List.{append-nil}
use theo_forge.Serialize.Filepath.{
  before_slash, split, join_slash, is_abs, back, enter, walk, reverse_onto, kept, clean,
}

abbrev pub IsPlain : Text → Type 0
IsPlain w = All (λ c. c ≢ b'/') w

-- An element of a clean path that names a directory or a file.
pub record IsElement (w : Text) : Type 0 where
  pub nonempty : is_empty w ≡ false
  pub plain : IsPlain w
  pub no_dot : (w == text ".") ≡ false
  pub no_up : (w == text "..") ≡ false

-- The absolute path of these elements.
abbrev pub rooted : List Text → Text
rooted ws = b'/' ∷ join_slash ws

before_slash-IsPlain :
    (c : ℕ) (ws : List Text) → c ≢ b'/' → All IsPlain ws → All IsPlain (before_slash c ws)
unfolding before_slash
before_slash-IsPlain c [] n h = ((n, tt), tt)
before_slash-IsPlain c (w ∷ ws) n h = ((n, h.0), h.1)

split-IsPlain : (s : Text) → All IsPlain (split s)
unfolding split
split-IsPlain [] = (tt, tt)
split-IsPlain (c ∷ s) = elim (Bool-cases (eqb c b'/')) [
  | inl e ↦ rw e (tt, split-IsPlain s)
  | inr e ↦
      rw e (before_slash-IsPlain c (split s) (λ same. ground (arith, e, same)) (split-IsPlain s))
]

back-IsElement : (out : List Text) → All IsElement out → All IsElement (back true out)
unfolding back
back-IsElement [] h = tt
back-IsElement (w ∷ out) h = rw h.0.no_up h.1

enter-IsElement :
    (out : List Text) (w : Text) → All IsElement out → IsPlain w → All IsElement (enter true out w)
unfolding enter
enter-IsElement out w h p = elim (Bool-cases (is_empty w)) [
  | inl e ↦ rw e h
  | inr e ↦ elim (Bool-cases (w == text ".")) [
    | inl d ↦ rw (e, d) h
    | inr d ↦ elim (Bool-cases (w == text "..")) [
      | inl u ↦ rw (e, d, u) (back-IsElement out h)
      | inr u ↦ rw (e, d, u) (record { nonempty = e; plain = p; no_dot = d; no_up = u }, h)
    ]
  ]
]

walk-IsElement :
    (out ws : List Text) → All IsElement out → All IsPlain ws → All IsElement (walk true out ws)
unfolding walk
walk-IsElement out [] h p = h
walk-IsElement out (w ∷ ws) h p =
    walk-IsElement (enter true out w) ws (enter-IsElement out w h p.0) p.1

reverse_onto-All :
    (P : Text → Type 0) (out ws : List Text) → All P out → All P ws → All P (reverse_onto out ws)
unfolding reverse_onto
reverse_onto-All P [] ws h k = k
reverse_onto-All P (w ∷ out) ws h k = reverse_onto-All P out (w ∷ ws) h.1 (h.0, k)

pub kept-IsElement : (path : Text) → All IsElement (kept true path)
unfolding kept
kept-IsElement path =
    reverse_onto-All IsElement (walk true [] (split path)) []
      (walk-IsElement [] (split path) tt (split-IsPlain path)) tt

-- Reading the elements of a text back.
split-append : (w s : Text) → IsPlain w → split (w ++ b'/' ∷ s) ≡ w ∷ split s
unfolding split before_slash
split-append [] s h = refl
split-append (c ∷ w) s h = elim (Bool-cases (eqb c b'/')) [
  | inl e ↦ elim (h.0 (ground (arith, e))) [ ]
  | inr e ↦ rw (e, split-append w s h.1) refl
]

split-IsPlain_lem : (w : Text) → IsPlain w → split w ≡ w ∷ []
unfolding split before_slash
split-IsPlain_lem [] h = refl
split-IsPlain_lem (c ∷ w) h = elim (Bool-cases (eqb c b'/')) [
  | inl e ↦ elim (h.0 (ground (arith, e))) [ ]
  | inr e ↦ rw (e, split-IsPlain_lem w h.1) refl
]

split-join_slash :
    (w : Text) (ws : List Text) → IsPlain w → All IsPlain ws → split (join_slash (w ∷ ws)) ≡ w ∷ ws
unfolding join_slash
split-join_slash w [] h k = split-IsPlain_lem w h
split-join_slash w (v ∷ ws) h k =
    split-append w (join_slash (v ∷ ws)) h ∙ ap (λ vs. w ∷ vs) (split-join_slash v ws k.0 k.1)

walk-reverse_onto : (out ws : List Text) → All IsElement ws → walk true out ws ≡ reverse_onto ws out
unfolding walk enter reverse_onto
walk-reverse_onto out [] h = refl
walk-reverse_onto out (w ∷ ws) h =
    let k = h.0 in rw (k.nonempty, k.no_dot, k.no_up) (walk-reverse_onto (w ∷ out) ws h.1)

reverse_onto_again :
    (xs ys zs : List Text) → reverse_onto (reverse_onto xs ys) zs ≡ reverse_onto ys (xs ++ zs)
unfolding reverse_onto
reverse_onto_again [] ys zs = refl
reverse_onto_again (x ∷ xs) ys zs = reverse_onto_again xs (x ∷ ys) zs

IsElement-plain : (ws : List Text) → All IsElement ws → All IsPlain ws
IsElement-plain [] h = tt
IsElement-plain (w ∷ ws) h = (h.0.plain, IsElement-plain ws h.1)

pub split-rooted :
    (w : Text) (ws : List Text) → All IsElement (w ∷ ws) → split (rooted (w ∷ ws)) ≡ [] ∷ w ∷ ws
unfolding split
split-rooted w ws h = ap (λ vs. [] ∷ vs) (split-join_slash w ws h.0.plain (IsElement-plain ws h.1))

-- The elements of a clean path are kept.
pub kept-rooted : (ws : List Text) → All IsElement ws → kept true (rooted ws) ≡ ws
unfolding kept walk enter reverse_onto split join_slash
kept-rooted [] h = refl
kept-rooted (w ∷ ws) h =
    rw (split-rooted w ws h, walk-reverse_onto [] (w ∷ ws) h)
      (reverse_onto_again (w ∷ ws) [] [] ∙ append-nil (w ∷ ws))

pub clean-is_abs : (path : Text) → is_abs path ≡ true → clean path ≡ rooted (kept true path)
unfolding clean
clean-is_abs path h = rw h refl

-- A clean absolute path is left as it is.
pub clean-rooted : (ws : List Text) → All IsElement ws → clean (rooted ws) ≡ rooted ws
unfolding is_abs
clean-rooted ws h = clean-is_abs (rooted ws) refl ∙ ap rooted (kept-rooted ws h)

-- To clean an absolute path again changes nothing.
pub clean-again : (path : Text) → is_abs path ≡ true → clean (clean path) ≡ clean path
clean-again path h = rw (clean-is_abs path h) (clean-rooted (kept true path) (kept-IsElement path))
