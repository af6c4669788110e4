-- ===== src/Client/Names.antt =====
-- client/validation.go: the names of Kubernetes resources, and the paths of the Argo server.
use theo_forge.Prelude.{
  ℕ, Bool, true, false, not, ◌&&◌, ◌||◌, Text, text, String, Option, none, some, [], ◌∷◌, ◌++◌,
  is_empty, length, ltb, leb, eqb, if◌then◌else◌, Result, ok, Error, wrap, fail_if, invalid_name,
  invalid_namespace, ◌>>=◌, ◌>>◌,
}

-- `[a-z0-9]`
unfoldable pub is_alnum : ℕ → Bool
is_alnum c = (leb b'a' c && leb c b'z') || (leb b'0' c && leb c b'9')

-- Where a match of `^[a-z0-9]([-a-z0-9]*[a-z0-9])?(\.[a-z0-9]([-a-z0-9]*[a-z0-9])?)*$` stands: before a
-- label, after a letter or a digit, or after a dash.
pub data Position : Type 0 where
  before inside dashed : Position

unfoldable pub next : Position → ℕ → Option Position
next before c = if is_alnum c then some inside else none
next inside c =
    if is_alnum c
    then some inside
    else if eqb c b'-'
    then some dashed
    else if eqb c b'.'
    then some before
    else none
next dashed c = if is_alnum c then some inside else if eqb c b'-' then some dashed else none

unfoldable pub accepting : Position → Bool
accepting before = false
accepting inside = true
accepting dashed = false

-- `k8sNameRe.MatchString`
unfoldable pub match_from : Position → Text → Bool
match_from q [] = accepting q
match_from q (c ∷ s) = elim (next q c) [ none ↦ false | some r ↦ match_from r s ]

abbrev pub k8s_name_max_len : ℕ
k8s_name_max_len = 253

-- The tests that the code makes of a name and, in the same words, of a namespace.
unfoldable pub check_k8s : Error → String → String → String → Text → Result (Unit {0})
check_k8s sentinel missing long bad name = do
  fail_if (is_empty name) (wrap missing [] sentinel)
  fail_if (ltb k8s_name_max_len (length name)) (wrap long (name ∷ text "253" ∷ []) sentinel)
  fail_if (not (match_from before name)) (wrap bad (name ∷ []) sentinel)

unfoldable pub validate_k8s_name : Text → Result (Unit {0})
validate_k8s_name name =
    check_k8s invalid_name "%w: name is empty" "%w: name %q exceeds %d chars"
      "%w: name %q must be lowercase alphanumerics, dashes, dots (RFC1123)" name

unfoldable pub validate_k8s_namespace : Text → Result (Unit {0})
validate_k8s_namespace ns =
    check_k8s invalid_namespace "%w: namespace is empty" "%w: namespace %q exceeds %d chars"
      "%w: namespace %q must be lowercase alphanumerics, dashes, dots (RFC1123)" ns

-- `url.PathEscape` is a parameter.
module _ (path_escape : Text → Text) where
  unfoldable pub workflows_path : Text → Result Text
  workflows_path ns = do validate_k8s_namespace ns; ok (text "/api/v1/workflows/" ++ path_escape ns)

  unfoldable pub workflow_path : Text → Text → Result Text
  workflow_path ns name = do
    validate_k8s_namespace ns
    validate_k8s_name name
    ok (text "/api/v1/workflows/" ++ (path_escape ns ++ (text "/" ++ path_escape name)))

  unfoldable pub workflow_action_path : Text → Text → Text → Result Text
  workflow_action_path ns name action = do
    base ← workflow_path ns name
    ok (base ++ (text "/" ++ action))
