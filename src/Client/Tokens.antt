-- ===== src/Client/Tokens.antt =====
-- The token of a service: what client/client.go sends of it, and what client/redact.go hides.
use theo_forge.Prelude.{
  ok, ap, true, false, Text, text, none, some, [], ◌∷◌, is_empty, if◌then◌else◌, ◌==◌, has_prefix,
  has_prefix-append, redacted_token_loaded, Bool-cases, ◌≡◌, refl, ◌⊎◌, inl, inr, arith,
}
use theo_forge.Client.Service.{WorkflowsService, format_token}
use theo_forge.Client.Redaction.{
  string, ServiceCodec, on_wire, marshal_json, load, unmarshal_json, redacted_token_placeholder,
}

abbrev pub with_token : WorkflowsService → Text → WorkflowsService
with_token s token = record s { token = token }

-- What `FormatToken` gives is empty if the token is, and otherwise `Bearer ` with what follows; given
-- as a token, it is left as it is.
pub format_token_lem :
    (s : WorkflowsService)
    → ((is_empty s.token ≡ true) × (format_token s ≡ []))
      ⊎ ((is_empty s.token ≡ false)
          × (has_prefix (format_token s) (text "Bearer ") ≡ true)
          × (format_token (with_token s (format_token s)) ≡ format_token s))
unfolding format_token
format_token_lem s = elim (Bool-cases (is_empty s.token)) [
  | inl e ↦ inl (e, ground (arith, e))
  | inr e ↦ elim (Bool-cases (has_prefix s.token (text "Bearer "))) [
    | inl b ↦ inr (e, rw (e, b) b, rw (e, b) (rw (e, b) refl))
    | inr b ↦
        let p = has_prefix-append (text "Bearer ") s.token in
        inr (e, rw (e, b) p, rw (e, b) (rw p refl))
  ]
]

sent_token :
    (a b : Text)
    → is_empty a ≡ is_empty b
    → (if is_empty a then a else redacted_token_placeholder)
      ≡ (if is_empty b then b else redacted_token_placeholder)
sent_token [] [] h = refl
sent_token [] (d ∷ b) h = ground (arith, h)
sent_token (c ∷ a) [] h = ground (arith, h)
sent_token (c ∷ a) (d ∷ b) h = refl

on_wire-with_token :
    (s : WorkflowsService) (a b : Text)
    → is_empty a ≡ is_empty b
    → on_wire (with_token s a) ≡ on_wire (with_token s b)
unfolding on_wire
on_wire-with_token s a b h = rw (sent_token a b h) refl

-- What a service prints and what it marshals are the same for any two tokens that are both empty or
-- both not.
pub with_token-hidden :
    (codec : ServiceCodec) (s : WorkflowsService) (a b : Text)
    → is_empty a ≡ is_empty b
    → (string (some (with_token s a)) ≡ string (some (with_token s b)))
      × (marshal_json codec (some (with_token s a)) ≡ marshal_json codec (some (with_token s b)))
unfolding string marshal_json
with_token-hidden codec s a b h = (rw h refl, ap codec.marshal (on_wire-with_token s a b h))

empty_token : (a : Text) → (a ≡ []) ⊎ (is_empty a ≡ false)
empty_token [] = inl refl
empty_token (c ∷ a) = inr refl

-- What is encoded of a service is loaded, to a service of which the same is encoded, if it has no
-- token; otherwise it is refused with ErrRedactedTokenLoaded, and nothing is changed.
load-on_wire :
    (s into : WorkflowsService)
    → ((is_empty s.token ≡ true)
        × ((load into (on_wire s)).1 ≡ none)
        × (on_wire (load into (on_wire s)).0 ≡ on_wire s))
      ⊎ ((is_empty s.token ≡ false) × (load into (on_wire s) ≡ (into, some redacted_token_loaded)))
unfolding load on_wire ◌==◌
load-on_wire s into = elim (empty_token s.token) [
  | inl e ↦ inl (rw e (refl, refl, refl))
  | inr e ↦ inr (rw e (refl, refl))
]

-- The same of the texts, for a service of which the decoder reads back what the encoder has made.
pub unmarshal_json-marshal_service :
    (codec : ServiceCodec) (s into : WorkflowsService) (data_ : Text)
    → codec.unmarshal data_ ≡ ok (on_wire s)
    → ((is_empty s.token ≡ true) × ((unmarshal_json codec into data_).1 ≡ none))
      ⊎ ((is_empty s.token ≡ false)
          × (unmarshal_json codec into data_ ≡ (into, some redacted_token_loaded)))
unfolding unmarshal_json
unmarshal_json-marshal_service codec s into data_ back = elim (load-on_wire s into) [
  | inl (e, done, again) ↦ inl (e, rw (unmarshal_json, back) done)
  | inr (e, refused) ↦ inr (e, rw (unmarshal_json, back) refused)
]
