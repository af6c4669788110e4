-- ===== src/Client/Subdomain.antt =====
-- The names that the expression of client/validation.go describes, written as a grammar, and the proof
-- that the matcher accepts these.
use theo_forge.Prelude.{
  ℕ, true, false, Text, [], ◌∷◌, ◌++◌, eqb, ◌≡◌, ◌≢◌, refl, ◌↔◌, ◌⊎◌, inl, inr, arith, All,
  All-append, Bool-cases,
}
use mathlib.Core.List.{append_assoc, append-nil}
use theo_forge.Client.Names.{
  is_alnum, Position, before, inside, dashed, next, accepting, match_from,
}

abbrev pub IsAlnum : ℕ → Type 0
IsAlnum c = is_alnum c ≡ true

-- `[-a-z0-9]`
abbrev pub IsMiddle : ℕ → Type 0
IsMiddle c = IsAlnum c ⊎ (c ≡ b'-')

-- `[a-z0-9][-a-z0-9]*`
pub data IsOpen : Text → Type 0 where
  opened : (c : ℕ) (m : Text) → IsAlnum c → All IsMiddle m → IsOpen (c ∷ m)

-- `[a-z0-9]([-a-z0-9]*[a-z0-9])?`
pub data IsLabel : Text → Type 0 where
  single : (c : ℕ) → IsAlnum c → IsLabel (c ∷ [])
  closed : (p : Text) (d : ℕ) → IsOpen p → IsAlnum d → IsLabel (p ++ d ∷ [])

-- Labels, with a dot between each and the next.
pub data IsSubdomain : Text → Type 0 where
  label : {s : Text} → IsLabel s → IsSubdomain s
  dotted : {a b : Text} → IsLabel a → IsSubdomain b → IsSubdomain (a ++ b'.' ∷ b)

-- What has been read where the matcher stands.
Read : Position → Text → Type 0
Read before p = p ≡ []
Read inside p = IsLabel p
Read dashed p = IsOpen p

IsOpen-snoc : (p : Text) (c : ℕ) → IsOpen p → IsMiddle c → IsOpen (p ++ c ∷ [])
IsOpen-snoc p c (opened d m a h) k =
    opened d (m ++ c ∷ []) a (All-append IsMiddle m (c ∷ []) h (k, tt))

IsLabel-IsOpen : {p : Text} → IsLabel p → IsOpen p
IsLabel-IsOpen (single c a) = opened c [] a tt
IsLabel-IsOpen (closed p d o a) = IsOpen-snoc p d o (inl a)

snoc_assoc : (p : Text) (c : ℕ) (s : Text) → (p ++ c ∷ []) ++ s ≡ p ++ c ∷ s
snoc_assoc p c s = append_assoc p (c ∷ []) s

sound : (q : Position) (p s : Text) → Read q p → match_from q s ≡ true → IsSubdomain (p ++ s)
unfolding Read match_from accepting next
sound before p [] r h = ground arith
sound inside p [] r h = rw (append-nil p) (label r)
sound dashed p [] r h = ground arith
sound before p (c ∷ s) r h = elim (Bool-cases (is_alnum c)) [
  | inl a ↦ rw r (sound inside (c ∷ []) s (single c a) (ground (arith, a, h)))
  | inr a ↦ ground (arith, a, h)
]
sound inside p (c ∷ s) r h = elim (Bool-cases (is_alnum c)) [
  | inl a ↦
      rw (← snoc_assoc p c s)
        (sound inside (p ++ c ∷ []) s (closed p c (IsLabel-IsOpen r) a) (ground (arith, a, h)))
  | inr a ↦ elim (Bool-cases (eqb c b'-')) [
    | inl d ↦ rw (← snoc_assoc p c s) (
        sound dashed (p ++ c ∷ []) s (IsOpen-snoc p c (IsLabel-IsOpen r) (inr (ground (arith, d))))
          (ground (arith, a, d, h)))
    | inr d ↦ elim (Bool-cases (eqb c b'.')) [
      | inl e ↦
          let dot : c ≡ b'.' = ground (arith, e) in
          rw dot (dotted r (sound before [] s refl (ground (arith, a, d, e, h))))
      | inr e ↦ ground (arith, a, d, e, h)
    ]
  ]
]
sound dashed p (c ∷ s) r h = elim (Bool-cases (is_alnum c)) [
  | inl a ↦
      rw (← snoc_assoc p c s) (sound inside (p ++ c ∷ []) s (closed p c r a) (ground (arith, a, h)))
  | inr a ↦ elim (Bool-cases (eqb c b'-')) [
    | inl d ↦ rw (← snoc_assoc p c s) (
        sound dashed (p ++ c ∷ []) s (IsOpen-snoc p c r (inr (ground (arith, d))))
          (ground (arith, a, d, h)))
    | inr d ↦ ground (arith, a, d, h)
  ]
]

is_alnum-dash : is_alnum b'-' ≡ false
unfolding is_alnum
is_alnum-dash = refl

is_alnum-dot : is_alnum b'.' ≡ false
unfolding is_alnum
is_alnum-dot = refl

-- Within a label, up to a letter or a digit.
through :
    (q : Position) (m : Text) (d : ℕ) (r : Text)
    → q ≢ before
    → All IsMiddle m
    → IsAlnum d
    → match_from q (m ++ d ∷ r) ≡ match_from inside r
unfolding match_from next
through before m d r n h a = elim (n refl) [ ]
through inside [] d r n h a = ground (arith, a)
through dashed [] d r n h a = ground (arith, a)
through inside (c ∷ m) d r n (inl k, h) a = ground (arith, k, through inside m d r n h a)
through dashed (c ∷ m) d r n (inl k, h) a =
    ground (arith, k, through inside m d r (λ q. ground (arith, q)) h a)
through inside (c ∷ m) d r n (inr k, h) a =
    ground (arith, k, is_alnum-dash, through dashed m d r (λ q. ground (arith, q)) h a)
through dashed (c ∷ m) d r n (inr k, h) a =
    ground (arith, k, is_alnum-dash, through dashed m d r n h a)

after-IsLabel : {a : Text} (r : Text) → IsLabel a → match_from before (a ++ r) ≡ match_from inside r
unfolding match_from next
after-IsLabel r (single c a) = ground (arith, a)
after-IsLabel r (closed p d (opened c m a h) k) =
    rw (snoc_assoc m d r) (ground (arith, a, through inside m d r (λ q. ground (arith, q)) h k))

complete : {s : Text} → IsSubdomain s → match_from before s ≡ true
unfolding match_from next accepting
complete (label {s} l) = rw (← append-nil s) (ground (arith, after-IsLabel [] l))
complete (dotted {a} {b} l more) =
    ground (arith, after-IsLabel (b'.' ∷ b) l, is_alnum-dot, complete more)

-- The matcher accepts exactly the texts that the expression of the code describes.
pub match_from_iff : (s : Text) → (match_from before s ≡ true) ↔ IsSubdomain s
match_from_iff s = (λ h. sound before [] s (unfold Read in refl) h, complete)
