-- ===== src/Serialize/Filepath.antt =====
-- Go's package path/filepath on a system with `/` as separator, as serialize/serialize.go uses it.
use theo_forge.Prelude.{
  ℕ, Bool, true, false, ◌||◌, Text, text, Option, none, some, List, [], ◌∷◌, ◌++◌, eqb, is_empty,
  if◌then◌else◌, ◌==◌, Result, ok, err, errorf, ◌>>=◌,
}

unfoldable pub before_slash : ℕ → List Text → List Text
before_slash c [] = (c ∷ []) ∷ []
before_slash c (w ∷ ws) = (c ∷ w) ∷ ws

-- What stands between the slashes.
unfoldable pub split : Text → List Text
split [] = [] ∷ []
split (c ∷ s) = let rest = split s in if eqb c b'/' then [] ∷ rest else before_slash c rest

-- The elements, with a slash between each and the next.
unfoldable pub join_slash : List Text → Text
join_slash [] = []
join_slash (w ∷ []) = w
join_slash (w ∷ v ∷ ws) = w ++ b'/' ∷ join_slash (v ∷ ws)

-- `filepath.IsAbs(path)`
unfoldable pub is_abs : Text → Bool
is_abs [] = false
is_abs (c ∷ s) = eqb c b'/'

-- `Clean` at an element `..`; `out` has the elements that are kept, the last of them first.
unfoldable pub back : Bool → List Text → List Text
back rooted [] = if rooted then [] else text ".." ∷ []
back rooted (w ∷ out) = if w == text ".." then text ".." ∷ w ∷ out else out

unfoldable pub enter : Bool → List Text → Text → List Text
enter rooted out w =
    if is_empty w || (w == text ".")
    then out
    else if w == text ".."
    then back rooted out
    else w ∷ out

unfoldable pub walk : Bool → List Text → List Text → List Text
walk rooted out [] = out
walk rooted out (w ∷ ws) = walk rooted (enter rooted out w) ws

unfoldable pub reverse_onto : List Text → List Text → List Text
reverse_onto [] ws = ws
reverse_onto (w ∷ out) ws = reverse_onto out (w ∷ ws)

-- The elements that `Clean` keeps.
unfoldable pub kept : Bool → Text → List Text
kept rooted path = reverse_onto (walk rooted [] (split path)) []

unfoldable pub relative_text : List Text → Text
relative_text [] = text "."
relative_text (w ∷ ws) = join_slash (w ∷ ws)

-- `filepath.Clean(path)`
unfoldable pub clean : Text → Text
clean path =
    if is_abs path then b'/' ∷ join_slash (kept true path) else relative_text (kept false path)

-- `filepath.Join(dir, name)`
unfoldable pub join : Text → Text → Text
join dir name =
    if is_empty dir
    then (if is_empty name then [] else clean name)
    else if is_empty name
    then clean dir
    else clean (dir ++ b'/' ∷ name)

-- The elements of a clean path that `Rel` compares.
unfoldable pub elements : Text → List Text
elements path = if path == text "/" then [] ∷ [] else split path

unfoldable pub ups : List Text → List Text
ups [] = []
ups (b ∷ bs) = text ".." ∷ ups bs

-- `none` where an element `..` of the base cannot be undone.
unfoldable pub rel_elements : List Text → List Text → Option (List Text)
rel_elements [] ts = some ts
rel_elements (b ∷ bs) [] = some (ups (b ∷ bs))
rel_elements (b ∷ bs) (t ∷ ts) =
    let rest = rel_elements bs ts in
    if b == t then rest else if b == text ".." then none else some (ups (b ∷ bs) ++ t ∷ ts)

unfoldable pub base_elements : Text → List Text
base_elements base = if base == text "." then [] else elements base

abbrev same : Bool → Bool → Bool
same true b = b
same false true = false
same false false = true

-- `filepath.Rel(base, targ)`
unfoldable pub rel : Text → Text → Result Text
rel base targ =
    let b = clean base in
    let t = clean targ in
    let ws =
      if same (is_abs b) (is_abs t) then rel_elements (base_elements b) (elements t) else none in
    if b == t then ok (text ".") else elim ws [
      | some ws ↦ ok (join_slash ws)
      | none ↦ err (errorf "Rel: can't make %s relative to %s" (targ ∷ base ∷ []))
    ]

-- `filepath.Abs(path)`; `os.Getwd` is a parameter.
unfoldable pub abs : Result Text → Text → Result Text
abs getwd path = if is_abs path then ok (clean path) else getwd >>= λ wd. ok (join wd path)
