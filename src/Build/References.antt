-- ===== src/Build/References.antt =====
-- validateTemplateReference: a task or a step names exactly one template.
use theo_forge.Prelude.{
  ◌≡◌, ◌≢◌, ◌⊎◌, inl, inr, refl, Text, Option, none, some, [], ◌∷◌, Error, ok, err, cause,
  template_missing, template_ambiguous, arith,
}
use theo_forge.Model.Basic.{TemplateRef}
use theo_forge.Build.Interfaces.{Templatable}
use theo_forge.Build.Shared.{validate_template_reference}

-- Exactly one of the three is set.
abbrev pub HasOneReference : Text → Option TemplateRef → Option Templatable → Type 0
HasOneReference template template_ref inline =
    ((template ≢ []) × (template_ref ≡ none) × (inline ≡ none))
    ⊎ (((template ≡ []) × (template_ref ≢ none) × (inline ≡ none))
        ⊎ ((template ≡ []) × (template_ref ≡ none) × (inline ≢ none)))

-- The reference of a task or a step is accepted exactly if one of Template, TemplateRef and Inline is
-- set; if none is set the cause of the error is ErrTemplateMissing, and if more are set it is
-- ErrTemplateAmbiguous.
pub validate_template_reference_lem :
    (template : Text) (r : Option TemplateRef) (i : Option Templatable) (who : Text)
    → ((validate_template_reference template r i who ≡ ok tt) × HasOneReference template r i)
      ⊎ ((e : Error) × (validate_template_reference template r i who ≡ err e)
          × (((cause e ≡ template_missing) × (template ≡ []) × (r ≡ none) × (i ≡ none))
              ⊎ ((cause e ≡ template_ambiguous)
                  × (¬ HasOneReference template r i)
                  × (¬ ((template ≡ []) × (r ≡ none) × (i ≡ none))))))
unfolding validate_template_reference
validate_template_reference_lem [] none none who = inr (_, refl, inl (refl, refl, refl, refl))
validate_template_reference_lem [] none (some i) who = inl (refl, ground arith)
validate_template_reference_lem [] (some r) none who = inl (refl, ground arith)
validate_template_reference_lem (c ∷ s) none none who = inl (refl, ground arith)
validate_template_reference_lem [] (some r) (some i) who =
    inr (_, refl, inr (refl, λ h. ground (arith, h), λ h. ground (arith, h)))
validate_template_reference_lem (c ∷ s) none (some i) who =
    inr (_, refl, inr (refl, λ h. ground (arith, h), λ h. ground (arith, h)))
validate_template_reference_lem (c ∷ s) (some r) none who =
    inr (_, refl, inr (refl, λ h. ground (arith, h), λ h. ground (arith, h)))
validate_template_reference_lem (c ∷ s) (some r) (some i) who =
    inr (_, refl, inr (refl, λ h. ground (arith, h), λ h. ground (arith, h)))

pub validate_template_reference_sound :
    (template : Text) (r : Option TemplateRef) (i : Option Templatable) (who : Text)
    → validate_template_reference template r i who ≡ ok tt
    → HasOneReference template r i
validate_template_reference_sound template r i who h =
    elim (validate_template_reference_lem template r i who) [
      | inl (_, one) ↦ one
      | inr (e, k, _) ↦ ground (arith, h, k)
    ]
