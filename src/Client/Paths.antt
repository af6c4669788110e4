-- ===== src/Client/Paths.antt =====
-- Which names client/validation.go accepts, and which paths it makes of them.
use theo_forge.Prelude.{
  ℕ, ◌≤◌, false, Text, text, String, [], ◌∷◌, ◌++◌, is_empty, length, ok, Error, ◌≡◌, ◌≢◌, refl,
  ◌↔◌, ◌⊎◌, inl, inr, arith, All, >>=-eq-ok, All-append,
}
use theo_forge.Client.Names.{
  is_alnum, check_k8s, validate_k8s_name, validate_k8s_namespace, workflow_path, workflows_path,
  workflow_action_path,
}
use theo_forge.Client.Subdomain.{
  IsMiddle, IsOpen, opened, IsLabel, single, closed, IsSubdomain, label, dotted, match_from_iff,
}

-- A name of a Kubernetes resource.
pub record IsK8sName (s : Text) : Type 0 where
  pub form : IsSubdomain s
  pub fits : length s ≤ 253

IsSubdomain-nonempty : {s : Text} → IsSubdomain s → is_empty s ≡ false
IsSubdomain-nonempty (label (single c a)) = refl
IsSubdomain-nonempty (label (closed p d (opened c m a h) k)) = refl
IsSubdomain-nonempty (dotted (single c a) more) = refl
IsSubdomain-nonempty (dotted (closed p d (opened c m a h) k) more) = refl

check_k8s_iff :
    (sentinel : Error) (missing long bad : String) (s : Text)
    → (check_k8s sentinel missing long bad s ≡ ok tt) ↔ IsK8sName s
unfolding check_k8s
check_k8s_iff sentinel missing long bad s = (
  λ h. record { form = (match_from_iff s).0 (ground (arith, h)); fits = ground (arith, h) },
  λ k. ground (arith, IsSubdomain-nonempty k.form, (match_from_iff s).1 k.form, k.fits),
)

validate_k8s_name_iff : (name : Text) → (validate_k8s_name name ≡ ok tt) ↔ IsK8sName name
unfolding validate_k8s_name
validate_k8s_name_iff name = check_k8s_iff _ _ _ _ name

pub validate_k8s_namespace_iff : (ns : Text) → (validate_k8s_namespace ns ≡ ok tt) ↔ IsK8sName ns
unfolding validate_k8s_namespace
validate_k8s_namespace_iff ns = check_k8s_iff _ _ _ _ ns

-- A byte that `url.PathEscape` documents to leave as it is, among those of a name.
abbrev pub IsUnreserved : ℕ → Type 0
IsUnreserved c = IsMiddle c ⊎ (c ≡ b'.')

IsOpen-IsUnreserved : {s : Text} → IsOpen s → All IsUnreserved s
IsOpen-IsUnreserved (opened c m a h) = (inl (inl a), weaken m h)
  where
    weaken : (m : Text) → All IsMiddle m → All IsUnreserved m
    weaken [] h = tt
    weaken (c ∷ m) (h, hs) = (inl h, weaken m hs)

IsLabel-IsUnreserved : {s : Text} → IsLabel s → All IsUnreserved s
IsLabel-IsUnreserved (single c a) = (inl (inl a), tt)
IsLabel-IsUnreserved (closed p d o a) =
    All-append IsUnreserved p (d ∷ []) (IsOpen-IsUnreserved o) (inl (inl a), tt)

IsSubdomain-IsUnreserved : {s : Text} → IsSubdomain s → All IsUnreserved s
IsSubdomain-IsUnreserved (label l) = IsLabel-IsUnreserved l
IsSubdomain-IsUnreserved (dotted {a} {b} l more) =
    All-append IsUnreserved a (b'.' ∷ b) (IsLabel-IsUnreserved l)
      (inr refl, IsSubdomain-IsUnreserved more)

IsUnreserved-slash : (c : ℕ) → IsUnreserved c → c ≢ b'/'
unfolding is_alnum
IsUnreserved-slash c (inl (inl a)) e = ground (arith, a, e)
IsUnreserved-slash c (inl (inr d)) e = ground (arith, d, e)
IsUnreserved-slash c (inr d) e = ground (arith, d, e)

-- Two texts that are the same and have no slash before a slash have the same parts.
slash-split :
    (a b x y : Text)
    → All IsUnreserved a
    → All IsUnreserved b
    → a ++ b'/' ∷ x ≡ b ++ b'/' ∷ y
    → (a ≡ b) × (x ≡ y)
slash-split [] [] x y h k e = (refl, cc)
slash-split [] (d ∷ b) x y h k e = elim (IsUnreserved-slash d k.0 (ground (arith, e))) [ ]
slash-split (c ∷ a) [] x y h k e = elim (IsUnreserved-slash c h.0 (ground (arith, e))) [ ]
slash-split (c ∷ a) (d ∷ b) x y h k e =
    let (p, q) = slash-split a b x y h.1 k.1 (ground (arith, e)) in (ground (arith, e, p), q)

module _ (path_escape : Text → Text)
    (keeps : (s : Text) → All IsUnreserved s → path_escape s ≡ s) where
  -- A path is made exactly of a valid namespace and a valid name, which stand in it as they are, if
  -- `url.PathEscape` leaves letters, digits, dashes and dots alone.
  pub workflow_path_iff :
      (ns name path : Text)
      → (workflow_path path_escape ns name ≡ ok path) ↔ (
          IsK8sName ns × IsK8sName name × (path ≡ text "/api/v1/workflows/" ++ (ns ++ b'/' ∷ name)))
  unfolding workflow_path
  workflow_path_iff ns name path = (
    λ h.
        let (_, one, h1) = >>=-eq-ok (validate_k8s_namespace ns) _ h in
        let (_, two, h2) = >>=-eq-ok (validate_k8s_name name) _ h1 in
        let a = (validate_k8s_namespace_iff ns).0 one in
        let b = (validate_k8s_name_iff name).0 two in
        let same_ns = keeps ns (IsSubdomain-IsUnreserved a.form) in
        let same_name = keeps name (IsSubdomain-IsUnreserved b.form) in
        (a, b, ground (arith, h2, same_ns, same_name)),
    λ (a, b, e).
        rw
          (
            (validate_k8s_namespace_iff ns).1 a,
            (validate_k8s_name_iff name).1 b,
            keeps ns (IsSubdomain-IsUnreserved a.form),
            keeps name (IsSubdomain-IsUnreserved b.form),
            e,
          )
          refl,
  )

  -- Two workflows that have the same path are the same workflow.
  pub workflow_path-injective :
      (a x b y path : Text)
      → workflow_path path_escape a x ≡ ok path
      → workflow_path path_escape b y ≡ ok path
      → (a ≡ b) × (x ≡ y)
  workflow_path-injective a x b y path h k =
      let (na, _, e) = (workflow_path_iff a x path).0 h in
      let (nb, _, f) = (workflow_path_iff b y path).0 k in
      slash-split a b x y (IsSubdomain-IsUnreserved na.form) (IsSubdomain-IsUnreserved nb.form)
        (ground (arith, e, f))

  pub workflows_path_iff :
      (ns path : Text)
      → (workflows_path path_escape ns ≡ ok path)
        ↔ (IsK8sName ns × (path ≡ text "/api/v1/workflows/" ++ ns))
  unfolding workflows_path
  workflows_path_iff ns path = (
    λ h.
        let (_, one, h1) = >>=-eq-ok (validate_k8s_namespace ns) _ h in
        let a = (validate_k8s_namespace_iff ns).0 one in
        (a, ground (arith, h1, keeps ns (IsSubdomain-IsUnreserved a.form))),
    λ (a, e).
        rw ((validate_k8s_namespace_iff ns).1 a, keeps ns (IsSubdomain-IsUnreserved a.form), e)
          refl,
  )

  pub workflow_action_path-eq-ok :
      (ns name action path : Text)
      → workflow_action_path path_escape ns name action ≡ ok path
      → IsK8sName ns
        × IsK8sName name
        × (path ≡ (text "/api/v1/workflows/" ++ (ns ++ b'/' ∷ name)) ++ (text "/" ++ action))
  unfolding workflow_action_path
  workflow_action_path-eq-ok ns name action path h =
      let (base, one, more) = >>=-eq-ok (workflow_path path_escape ns name) _ h in
      let (a, b, e) = (workflow_path_iff ns name base).0 one in (a, b, ground (arith, more, e))
