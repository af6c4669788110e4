-- ===== src/Units/Pattern.antt =====
-- The regular expressions of validate/units.go: `^(\d*\.?\d+)(Ki|Mi|Gi|Ti|Pi|Ei)?$` and
-- `^(\d*\.?\d+)([mkMGTPE])?$`. The matcher reads the text once, as the expressions leave no choice.
use theo_forge.Prelude.{
  ℕ, Bool, false, ◌&&◌, ◌||◌, Text, text, Option, none, some, List, [], ◌∷◌, ◌++◌, leb, eqb, ◌==◌,
  is_empty, not, if◌then◌else◌,
}

abbrev pub is_digit : ℕ → Bool
is_digit c = leb b'0' c && leb c b'9'

-- The longest run of digits in front, and what follows it.
unfoldable pub digits : Text → Text × Text
digits [] = ([], [])
digits (c ∷ s) = let (run, rest) = digits s in if is_digit c then (c ∷ run, rest) else ([], c ∷ s)

-- A digit run after a point.
unfoldable pub fraction : Text → Text → Option (Text × Text)
fraction whole [] = none
fraction whole (c ∷ s) =
    let (run, rest) = digits s in
    if eqb c b'.' && not (is_empty run) then some (whole ++ (c ∷ run), rest) else none

-- The first group: the number, and what follows it.
unfoldable pub number : Text → Option (Text × Text)
number s =
    let (run, rest) = digits s in
    elim (fraction run rest) [
      | some found ↦ some found
      | none ↦ if is_empty run then none else some (run, rest)
    ]

unfoldable pub listed : Text → List Text → Bool
listed s [] = false
listed s (t ∷ ts) = s == t || listed s ts

abbrev pub binary_suffixes : List Text
binary_suffixes = [] ∷ text "Ki" ∷ text "Mi" ∷ text "Gi" ∷ text "Ti" ∷ text "Pi" ∷ text "Ei" ∷ []

abbrev pub decimal_suffixes : List Text
decimal_suffixes =
    [] ∷ text "m" ∷ text "k" ∷ text "M" ∷ text "G" ∷ text "T" ∷ text "P" ∷ text "E" ∷ []

-- `FindStringSubmatch`: the two groups, where the second is one of the suffixes.
unfoldable pub submatch : List Text → Text → Option (Text × Text)
submatch suffixes s = elim (number s) [
  | none ↦ none
  | some (n, rest) ↦ if listed rest suffixes then some (n, rest) else none
]
