-- ===== src/Config/Redaction.antt =====
-- The token in config/redact.go: what is printed or marshalled depends on it only by whether it is
-- empty, and what is marshalled is read back only if there was no token.
use theo_forge.Prelude.{
  true, false, Text, none, some, [], ◌∷◌, is_empty, if◌then◌else◌, ◌==◌, redacted_token_loaded,
  Error, ok, err, ap, ◌∙◌, ◌≡◌, refl, ◌⊎◌, inl, inr, arith,
}
use theo_forge.Model.Reading.{IsUtf8}
use theo_forge.Config.Global.{
  GlobalConfig, GlobalConfigJson, ConfigCodec, set_token, string, on_wire, marshal_json, load,
  unmarshal_json, redacted_token_placeholder,
}

-- What `String` prints is the same for any two tokens that are both empty or both not.
string-set_token :
    (g : GlobalConfig) (a b : Text)
    → is_empty a ≡ is_empty b
    → string (set_token g a) ≡ string (set_token g b)
unfolding string set_token
string-set_token g a b h = rw h refl

empty_token : (a : Text) → (a ≡ []) ⊎ (is_empty a ≡ false)
empty_token [] = inl refl
empty_token (c ∷ a) = inr refl

sent_token :
    (a b : Text)
    → is_empty a ≡ is_empty b
    → (if is_empty a then a else redacted_token_placeholder)
      ≡ (if is_empty b then b else redacted_token_placeholder)
sent_token [] [] h = refl
sent_token [] (d ∷ b) h = ground (arith, h)
sent_token (c ∷ a) [] h = ground (arith, h)
sent_token (c ∷ a) (d ∷ b) h = refl

on_wire-set_token :
    (g : GlobalConfig) (a b : Text)
    → is_empty a ≡ is_empty b
    → on_wire (set_token g a) ≡ on_wire (set_token g b)
unfolding on_wire set_token
on_wire-set_token g a b h = rw (sent_token a b h) refl

-- The fields are in valid UTF-8.
pub record IsValidText (g : GlobalConfig) : Type 0 where
  pub host : IsUtf8 g.host
  pub namespace : IsUtf8 g.namespace
  pub image : IsUtf8 g.image
  pub account : IsUtf8 g.service_account_name
  pub policy : IsUtf8 g.image_pull_policy

-- The same of what is encoded.
abbrev pub IsValidWire : GlobalConfigJson → Type 0
IsValidWire j =
    IsUtf8 j.host
    × IsUtf8 j.token
    × IsUtf8 j.namespace
    × IsUtf8 j.image
    × IsUtf8 j.service_account_name
    × IsUtf8 j.image_pull_policy

placeholder-IsUtf8 : IsUtf8 redacted_token_placeholder
placeholder-IsUtf8 =
    IsUtf8.one_byte (omega arith)
      (IsUtf8.one_byte (omega arith) (IsUtf8.one_byte (omega arith) IsUtf8.empty))

sent_token-IsUtf8 : (t : Text) → IsUtf8 (if is_empty t then t else redacted_token_placeholder)
sent_token-IsUtf8 [] = IsUtf8.empty
sent_token-IsUtf8 (c ∷ t) = placeholder-IsUtf8

on_wire-IsValidWire : (g : GlobalConfig) → IsValidText g → IsValidWire (on_wire g)
unfolding on_wire
on_wire-IsValidWire g v =
    (v.host, sent_token-IsUtf8 g.token, v.namespace, v.image, v.account, v.policy)

module _ (codec : ConfigCodec) where
  -- What `String` prints and what `MarshalJSON` encodes are the same for any two tokens that are both
  -- empty or both not.
  pub set_token-hidden :
      (g : GlobalConfig) (a b : Text)
      → is_empty a ≡ is_empty b
      → (string (set_token g a) ≡ string (set_token g b))
        × (marshal_json codec (some (set_token g a)) ≡ marshal_json codec (some (set_token g b)))
  unfolding marshal_json
  set_token-hidden g a b h =
      (string-set_token g a b h, ap codec.marshal (on_wire-set_token g a b h))

load-on_wire :
    (g into : GlobalConfig)
    → ((is_empty g.token ≡ true)
        × ((load into (on_wire g)).1 ≡ none)
        × (on_wire (load into (on_wire g)).0 ≡ on_wire g))
      ⊎ ((is_empty g.token ≡ false) × (load into (on_wire g) ≡ (into, some redacted_token_loaded)))
unfolding load on_wire ◌==◌
load-on_wire g into = elim (empty_token g.token) [
  | inl e ↦ inl (rw e (refl, refl, refl))
  | inr e ↦ inr (rw e (refl, refl))
]

module _ (codec : ConfigCodec)
    (decodes : (j : GlobalConfigJson) (data_ : Text)
      → IsValidWire j
      → codec.marshal j ≡ ok data_
      → codec.unmarshal data_ ≡ ok j) where
  -- What `MarshalJSON` gives of a configuration in valid UTF-8, if encoding/json decodes what it encodes
  -- of that: without a token, `UnmarshalJSON` loads it, to a configuration of which it gives the same; with one,
  -- it is refused with ErrRedactedTokenLoaded and changes nothing. Data that does not decode gives the
  -- error of encoding/json, and changes nothing.
  pub unmarshal_json-marshal_json :
      (g into : GlobalConfig) (data_ : Text)
      → IsValidText g
      → marshal_json codec (some g) ≡ ok data_
      → (((is_empty g.token ≡ true)
            × ((unmarshal_json codec into data_).1 ≡ none)
            × (marshal_json codec (some (unmarshal_json codec into data_).0) ≡ ok data_))
          ⊎ ((is_empty g.token ≡ false)
              × (unmarshal_json codec into data_ ≡ (into, some redacted_token_loaded))))
        × ((broken : Text) (e : Error)
            → codec.unmarshal broken ≡ err e
            → unmarshal_json codec into broken ≡ (into, some e))
  unfolding marshal_json unmarshal_json
  unmarshal_json-marshal_json g into data_ v h =
      let back = decodes (on_wire g) data_ (on_wire-IsValidWire g v) h in
      let same : unmarshal_json codec into data_ ≡ load into (on_wire g) =
        rw (unmarshal_json, back) refl in
      (
        elim (load-on_wire g into) [
          | inl (e, done, again) ↦ inl (e, rw same done, rw same (ap codec.marshal again ∙ h))
          | inr (e, refused) ↦ inr (e, rw same refused)
        ],
        λ broken e f. rw (unmarshal_json, f) refl,
      )
