-- ===== src/Build/Sources.antt =====
-- Which projected volumes of volume.go can be built.
use theo_forge.Prelude.{
  ℕ, suc, ◌+◌, Bool, true, false, not, Text, some, List, [], ◌∷◌, is_empty, is_some, eqb, errorf,
  ok, ◌≡◌, ◌≢◌, refl, ◌↔◌, ◌⊎◌, inl, inr, arith, All, fail_if-eq-ok, >>=-eq-ok, Option-cases,
  Result-cases,
}
use theo_forge.Model.Volumes.{VolumeModel, VolumeProjectionModel}
use theo_forge.Build.Shared.{one_if}
use theo_forge.Build.Volumes.{
  validate, VolumeProjection, ServiceAccountTokenProjection, ProjectedVolume, source_count,
  token_path_missing, build_projection, build_projections, build_projected,
}

-- Exactly one of four tests holds.
abbrev pub IsOnly : Bool → Bool → Bool → Bool → Type 0
IsOnly true false false false = Unit
IsOnly false true false false = Unit
IsOnly false false true false = Unit
IsOnly false false false true = Unit
IsOnly _ _ _ _ = ⊥

IsOnly-iff :
    (a b c d : Bool)
    → (eqb (one_if a + (one_if b + (one_if c + one_if d))) 1 ≡ true) ↔ IsOnly a b c d
IsOnly-iff true true c d = (λ h. ground (arith, h), λ h. ground (arith, h))
IsOnly-iff true false true d = (λ h. ground (arith, h), λ h. ground (arith, h))
IsOnly-iff true false false true = (λ h. ground (arith, h), λ h. ground (arith, h))
IsOnly-iff true false false false = (λ h. ground (arith, h), λ h. ground (arith, h))
IsOnly-iff false true true d = (λ h. ground (arith, h), λ h. ground (arith, h))
IsOnly-iff false true false true = (λ h. ground (arith, h), λ h. ground (arith, h))
IsOnly-iff false true false false = (λ h. ground (arith, h), λ h. ground (arith, h))
IsOnly-iff false false true true = (λ h. ground (arith, h), λ h. ground (arith, h))
IsOnly-iff false false true false = (λ h. ground (arith, h), λ h. ground (arith, h))
IsOnly-iff false false false true = (λ h. ground (arith, h), λ h. ground (arith, h))
IsOnly-iff false false false false = (λ h. ground (arith, h), λ h. ground (arith, h))

-- A source that can be projected: one of the four is set, and a token has a path.
pub record IsProjectable (s : VolumeProjection) : Type 0 where
  pub only :
      IsOnly
        (is_some s.service_account_token)
        (is_some s.config_map)
        (is_some s.secret)
        (is_some s.downward_api)
  pub path : (t : ServiceAccountTokenProjection) → s.service_account_token ≡ some t → t.path ≢ []

path_iff :
    (s : VolumeProjection)
    → (token_path_missing s ≡ false)
      ↔ ((t : ServiceAccountTokenProjection) → s.service_account_token ≡ some t → t.path ≢ [])
unfolding token_path_missing
path_iff s = elim (Option-cases s.service_account_token) [
  | inl e ↦ (λ _ t q. ground (arith, e, q), λ _. rw e refl)
  | inr (t, e) ↦ (
    λ h u q r. ground (arith, e, q, h, r),
    λ h. elim (empty_cases t.path) [ inl z ↦ elim (h t e z) [ ] | inr z ↦ rw e z ],
  )
]
  where
    empty_cases : (x : Text) → (x ≡ []) ⊎ (is_empty x ≡ false)
    empty_cases [] = inl refl
    empty_cases (c ∷ x) = inr refl

count_iff :
    (s : VolumeProjection)
    → (eqb (source_count s) 1 ≡ true)
      ↔ IsOnly
          (is_some s.service_account_token)
          (is_some s.config_map)
          (is_some s.secret)
          (is_some s.downward_api)
unfolding source_count
count_iff s =
    IsOnly-iff (is_some s.service_account_token) (is_some s.config_map) (is_some s.secret)
      (is_some s.downward_api)

projection_sound :
    (name : Text) (i : ℕ) (s : VolumeProjection) {m : VolumeProjectionModel}
    → build_projection name i s ≡ ok m
    → IsProjectable s
unfolding build_projection
projection_sound name i s h =
    let (one, h1) = fail_if-eq-ok (not (eqb (source_count s) 1)) _ _ h in
    let (there, _) = fail_if-eq-ok (token_path_missing s) _ _ h1 in
    record { only = (count_iff s).0 (ground (arith, one)); path = (path_iff s).0 there }

projection_complete :
    (name : Text) (i : ℕ) (s : VolumeProjection)
    → IsProjectable s
    → (m : VolumeProjectionModel) × (build_projection name i s ≡ ok m)
unfolding build_projection
projection_complete name i s p = elim (Result-cases (build_projection name i s)) [
  | inl built ↦ built
  | inr (e, h) ↦ ground (arith, h, (count_iff s).1 p.only, (path_iff s).1 p.path)
]

projections_iff :
    (name : Text) (i : ℕ) (ss : List VolumeProjection)
    → ((ms : List VolumeProjectionModel) × (build_projections name i ss ≡ ok ms))
      ↔ All IsProjectable ss
unfolding build_projections
projections_iff name i [] = (λ _. tt, λ _. ([], refl))
projections_iff name i (s ∷ ss) = (
  λ (ms, h).
      let (m, one, h1) = >>=-eq-ok (build_projection name i s) _ h in
      let (rest, more, _) = >>=-eq-ok (build_projections name (suc i) ss) _ h1 in
      (projection_sound name i s one, (projections_iff name (suc i) ss).0 (rest, more)),
  λ (p, ps).
      let (m, one) = projection_complete name i s p in
      let (rest, more) = (projections_iff name (suc i) ss).1 ps in (m ∷ rest, rw (one, more) refl),
)

-- A projected volume can be built exactly if it has a name, and each of its sources sets one of the four
-- kinds, and a path if that is a service account token.
pub build_projected_iff :
    (v : ProjectedVolume)
    → ((m : VolumeModel) × (build_projected v ≡ ok m))
      ↔ ((is_empty v.name ≡ false) × All IsProjectable v.sources)
unfolding build_projected validate
build_projected_iff v = (
  λ (m, h).
      let (named, h1) =
        fail_if-eq-ok (is_empty v.name) (errorf "volume name cannot be empty" []) _ h in
      let (ms, more, _) = >>=-eq-ok (build_projections v.name 0 v.sources) _ h1 in
      (named, (projections_iff v.name 0 v.sources).0 (ms, more)),
  λ (named, ps).
      let (ms, more) = (projections_iff v.name 0 v.sources).1 ps in
      elim (Result-cases (build_projected v)) [
        | inl built ↦ built
        | inr (e, h) ↦ ground (arith, h, named, more)
      ],
)
