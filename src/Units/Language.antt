-- ===== src/Units/Language.antt =====
-- The texts that the unit expressions describe, read off the expressions, and the proof that the
-- matcher finds exactly these.
use theo_forge.Prelude.{
  ◌≡◌, ◌≢◌, refl, sym, ap, ◌∙◌, ◌↔◌, inl, inr, true, false, Bool-cases, Option-cases, Text, none,
  some, List, [], ◌∷◌, ◌++◌, All, In, is_empty, ==_iff, ◌==◌, eqb, arith,
}
use mathlib.Core.List.{append_assoc}
use theo_forge.Units.Pattern.{is_digit, digits, fraction, number, listed, submatch}

abbrev pub IsDigits : Text → Type 0
IsDigits s = All (λ c. is_digit c ≡ true) s

-- `\d*\.?\d+`
pub data IsNumber : Text → Type 0 where
  whole : (s : Text) → IsDigits s → s ≢ [] → IsNumber s
  pointed : (a b s : Text) → IsDigits a → IsDigits b → b ≢ [] → s ≡ a ++ (b'.' ∷ b) → IsNumber s

-- A number and a suffix.
pub record IsUnit (suffixes : List Text) (s n u : Text) : Type 0 where
  pub parts : s ≡ n ++ u
  pub is_number : IsNumber n
  pub is_suffix : In u suffixes

digits-append : (s : Text) → (digits s).0 ++ (digits s).1 ≡ s
unfolding digits
digits-append [] = refl
digits-append (c ∷ s) = elim (Bool-cases (is_digit c)) [
  | inl d ↦ rw d (ap (λ t. c ∷ t) (digits-append s))
  | inr d ↦ rw d
]

digits-IsDigits : (s : Text) → IsDigits (digits s).0
unfolding digits
digits-IsDigits [] = tt
digits-IsDigits (c ∷ s) = elim (Bool-cases (is_digit c)) [
  | inl d ↦ rw d (d, digits-IsDigits s)
  | inr d ↦ rw d tt
]

-- What follows does not go on with a digit.
abbrev pub StartsPlain : Text → Type 0
StartsPlain [] = Unit
StartsPlain (c ∷ s) = is_digit c ≡ false

digits-of : (a r : Text) → IsDigits a → StartsPlain r → digits (a ++ r) ≡ (a, r)
unfolding digits
digits-of [] [] h p = refl
digits-of [] (c ∷ r) h p = rw p
digits-of (c ∷ a) r h p = rw (h.0, digits-of a r h.1 p)

pub is_empty-false_iff : (s : Text) → (is_empty s ≡ false) ↔ (s ≢ [])
is_empty-false_iff [] = ground arith
is_empty-false_iff (c ∷ s) = ground arith

listed_iff : (s : Text) (ts : List Text) → (listed s ts ≡ true) ↔ In s ts
unfolding listed
listed_iff s [] = ground arith
listed_iff s (t ∷ ts) = (
  λ h. elim (Bool-cases (s == t)) [
    | inl e ↦ inl (sym ((==_iff s t).0 e))
    | inr e ↦ inr ((listed_iff s ts).0 (ground arith))
  ],
  elim [
    | inl e ↦ ground (arith, (==_iff s t).1 (sym e))
    | inr h ↦ ground (arith, (listed_iff s ts).1 h)
  ],
)

fraction_sound :
    (a r : Text) {n u : Text}
    → IsDigits a
    → fraction a r ≡ some (n, u)
    → IsNumber n × (a ++ r ≡ n ++ u)
unfolding fraction
fraction_sound a [] h e = ground arith
fraction_sound a (c ∷ s) {n} {u} h e = elim (Bool-cases (eqb c b'.')) [
  | inl point ↦ elim (Bool-cases (is_empty (digits s).0)) [
    | inl bare ↦ ground arith
    | inr full ↦
        let dot : c ≡ b'.' = ground arith in
        let en : a ++ (c ∷ (digits s).0) ≡ n = ground arith in
        let eu : (digits s).1 ≡ u = ground arith in
        (
          pointed a (digits s).0 n h (digits-IsDigits s) ((is_empty-false_iff _).0 full)
              (sym en ∙ ap (λ d. a ++ (d ∷ (digits s).0)) dot),
          rw (← en, ← eu, append_assoc, digits-append s),
        )
  ]
  | inr other ↦ ground arith
]

number_sound : (s : Text) {n u : Text} → number s ≡ some (n, u) → IsNumber n × (s ≡ n ++ u)
unfolding number
number_sound s {n} {u} e = elim (Option-cases (fraction (digits s).0 (digits s).1)) [
  | inl bare ↦ elim (Bool-cases (is_empty (digits s).0)) [
    | inl empty ↦ ground arith
    | inr full ↦
        let en : (digits s).0 ≡ n = ground arith in
        let eu : (digits s).1 ≡ u = ground arith in
        (
          rw (← en) (whole _ (digits-IsDigits s) ((is_empty-false_iff _).0 full)),
          rw (← en, ← eu, digits-append s),
        )
  ]
  | inr ((m, v), found) ↦
      let en : m ≡ n = ground arith in
      let eu : v ≡ u = ground arith in
      let (good, same) = fraction_sound (digits s).0 (digits s).1 (digits-IsDigits s) found in
      (rw (← en) good, rw (← en, ← eu) (sym (digits-append s) ∙ same))
]

-- What follows a number neither goes on with a digit nor with a point.
abbrev pub StartsSuffix : Text → Type 0
StartsSuffix [] = Unit
StartsSuffix (c ∷ s) = (is_digit c ≡ false) × (eqb c b'.' ≡ false)

suffix-plain : (u : Text) → StartsSuffix u → StartsPlain u
suffix-plain [] h = tt
suffix-plain (c ∷ u) h = h.0

fraction-suffix : (a u : Text) → StartsSuffix u → fraction a u ≡ none
unfolding fraction
fraction-suffix a [] h = refl
fraction-suffix a (c ∷ u) h = ground arith

fraction-pointed :
    (a b u : Text)
    → IsDigits b
    → b ≢ []
    → StartsSuffix u
    → fraction a (b'.' ∷ (b ++ u)) ≡ some (a ++ (b'.' ∷ b), u)
unfolding fraction
fraction-pointed a b u hb full p =
    ground (arith, digits-of b u hb (suffix-plain u p), (is_empty-false_iff b).1 full)

number_complete : (n u : Text) → IsNumber n → StartsSuffix u → number (n ++ u) ≡ some (n, u)
unfolding number
number_complete n u (whole _ h full) p = ground (
  arith,
  digits-of n u h (suffix-plain u p),
  fraction-suffix n u p,
  (is_empty-false_iff n).1 full,
)
number_complete n u (pointed a b _ ha hb full e) p =
    rw (e, append_assoc)
      (ground (arith, digits-of a (b'.' ∷ (b ++ u)) ha refl, fraction-pointed a b u hb full p))

In-All : (P : Text → Type 0) (u : Text) (ts : List Text) → In u ts → All P ts → P u
In-All P u [] h k = absurd h
In-All P u (t ∷ ts) (inl e) k = rw e at k.0
In-All P u (t ∷ ts) (inr h) k = In-All P u ts h k.1

-- The matcher finds the groups `n` and `u` exactly if the text is a number `n` and a suffix `u`.
pub submatch_iff :
    (suffixes : List Text) (s n u : Text)
    → All StartsSuffix suffixes
    → (submatch suffixes s ≡ some (n, u)) ↔ IsUnit suffixes s n u
unfolding submatch
submatch_iff suffixes s n u plain = (
  λ e. elim (Option-cases (number s)) [
    | inl missed ↦ ground arith
    | inr ((m, v), found) ↦ elim (Bool-cases (listed v suffixes)) [
      | inl known ↦
          let en : m ≡ n = ground arith in
          let eu : v ≡ u = ground arith in
          let (good, same) = number_sound s found in
          record {
            parts = rw (← en, ← eu) same;
            is_number = rw (← en) good;
            is_suffix = (listed_iff u suffixes).0 (rw (← eu) known);
          }
      | inr unknown ↦ ground arith
    ]
  ],
  λ k. rw (
    k.parts,
    number_complete n u k.is_number (In-All StartsSuffix u suffixes k.is_suffix plain),
    (listed_iff u suffixes).1 k.is_suffix,
    submatch,
  ),
)
