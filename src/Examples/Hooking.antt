-- ===== src/Examples/Hooking.antt =====
-- Hooks on numbers, and configurations.
use theo_forge.Prelude.{
  Bool, Text, ◌&&◌, ==_iff, err, if◌then◌else◌, inl, inr, ap, Bool-cases, ℕ, suc, true, false, text,
  none, some, ◌==◌, List, [], ◌∷◌, ◌≡◌, ◌↔◌, ◌⊎◌, refl, arith, AllDistinct, Error, errorf, wrap, ok,
  is_empty, redacted_token_loaded,
}
use theo_forge.Model.Templates.{TemplateModel, template, fields_named, no_dag, no_groups}
use theo_forge.Config.Global.{
  NamedHook, GlobalConfig, GlobalConfigJson, ConfigCodec, on_wire, new, marshal_json,
  unmarshal_json, apply_template_defaults,
}
use theo_forge.Config.Named.{register, registered, dispatch, list_ids}
use theo_forge.Model.Reading.{IsUtf8}
use theo_forge.Config.Dispatching.{StoppedBy, dispatch-error}
use theo_forge.Config.Filling.{TemplateFilled, apply_template_defaults_iff}
use theo_forge.Config.Redaction.{IsValidText, IsValidWire, unmarshal_json-marshal_json}

abbrev increment : NamedHook ℕ
increment = record { id = text "increment"; fn = λ n. (suc n, none) }

abbrev broken : NamedHook ℕ
broken = record { id = text "broken"; fn = λ n. (n, some (errorf "no" [])) }

abbrev both : List (NamedHook ℕ)
both = increment ∷ broken ∷ []

both-distinct : AllDistinct (list_ids both)
unfolding list_ids
both-distinct = ground arith

registered_log : (register "%q taken" both (text "log") (some increment.fn)).1 ≡ ok (text "log")
unfolding register registered ◌==◌
registered_log = refl

abbrev refusal : Error
refusal = wrap "hook %q: %w" (text "broken" ∷ []) (errorf "no" [])

stopped : dispatch "hook %q: %w" both 0 ≡ (1, some refusal)
unfolding dispatch
stopped = refl

dispatch-error_example :
    (h : NamedHook ℕ) × (d : Error) × StoppedBy both 0 h 1 d
    × (refusal ≡ wrap "hook %q: %w" (h.id ∷ []) d)
dispatch-error_example = dispatch-error "hook %q: %w" both 0 1 refusal stopped

abbrev empty_template : TemplateModel
empty_template = template (fields_named (text "main")) no_dag no_groups

abbrev defaulted : TemplateModel
defaulted = apply_template_defaults new empty_template

apply_template_defaults_example :
    (apply_template_defaults new empty_template ≡ defaulted)
    ↔ TemplateFilled new empty_template defaulted
apply_template_defaults_example = apply_template_defaults_iff new empty_template defaulted

abbrev secret : GlobalConfig
secret = record new { token = text "s3cret"; image = [] }

-- What is encoded of that configuration.
abbrev hidden : GlobalConfigJson
hidden = record {
  host = secret.host;
  token = text "***";
  namespace = secret.namespace;
  image = secret.image;
  service_account_name = secret.service_account_name;
  image_pull_policy = secret.image_pull_policy;
  verify_ssl = true;
}

abbrev is_hidden : GlobalConfigJson → Bool
is_hidden j =
    j.verify_ssl
    && (j.host == hidden.host
        && (j.token == hidden.token
            && (j.namespace == hidden.namespace
                && (j.image == hidden.image
                    && (j.service_account_name == hidden.service_account_name
                        && j.image_pull_policy == hidden.image_pull_policy)))))

both_true : (a b : Bool) → (a && b) ≡ true → (a ≡ true) × (b ≡ true)
both_true true b h = (refl, h)
both_true false b h = ground (arith, h)

is_hidden-eq : (j : GlobalConfigJson) → is_hidden j ≡ true → hidden ≡ j
is_hidden-eq j h =
    let (ssl, h1) = both_true j.verify_ssl _ h in
    let (host, h2) = both_true (j.host == hidden.host) _ h1 in
    let (token, h3) = both_true (j.token == hidden.token) _ h2 in
    let (namespace, h4) = both_true (j.namespace == hidden.namespace) _ h3 in
    let (image, h5) = both_true (j.image == hidden.image) _ h4 in
    let (account, policy) =
      both_true (j.service_account_name == hidden.service_account_name) _ h5 in
    let parts : j ≡ record {
      host = j.host;
      token = j.token;
      namespace = j.namespace;
      image = j.image;
      service_account_name = j.service_account_name;
      image_pull_policy = j.image_pull_policy;
      verify_ssl = j.verify_ssl;
    } =
      refl in
    rw
      (
        parts,
        ssl,
        (==_iff j.host hidden.host).0 host,
        (==_iff j.token hidden.token).0 token,
        (==_iff j.namespace hidden.namespace).0 namespace,
        (==_iff j.image hidden.image).0 image,
        (==_iff j.service_account_name hidden.service_account_name).0 account,
        (==_iff j.image_pull_policy hidden.image_pull_policy).0 policy,
      )
      refl

-- An encoder that knows one document.
abbrev one_document : ConfigCodec
one_document = record {
  marshal = λ j. if is_hidden j then ok (text "{}") else err (errorf "unsupported value" []);
  unmarshal =
      λ data_. if is_empty data_ then err (errorf "unexpected end of JSON input" []) else ok hidden;
}

one_document-decodes :
    (j : GlobalConfigJson) (data_ : Text)
    → IsValidWire j
    → one_document.marshal j ≡ ok data_
    → one_document.unmarshal data_ ≡ ok j
one_document-decodes j data_ v h = elim (Bool-cases (is_hidden j)) [
  | inl e ↦
      let same : text "{}" ≡ data_ = ground (arith, rw e at h) in
      rw (← same) (ap ok (is_hidden-eq j e))
  | inr e ↦ let wrong = rw e at h in ground (arith, wrong)
]

secret-IsValidText : IsValidText secret
secret-IsValidText = record {
  host = IsUtf8.empty;
  namespace = IsUtf8.empty;
  image = IsUtf8.empty;
  account = IsUtf8.empty;
  policy = IsUtf8.empty;
}

secret-marshalled : marshal_json one_document (some secret) ≡ ok (text "{}")
unfolding marshal_json on_wire ◌==◌
secret-marshalled = refl

unmarshal_json_example :
    (((is_empty secret.token ≡ true)
        × ((unmarshal_json one_document new (text "{}")).1 ≡ none)
        × (marshal_json one_document (some (unmarshal_json one_document new (text "{}")).0)
            ≡ ok (text "{}")))
      ⊎ ((is_empty secret.token ≡ false)
          × (unmarshal_json one_document new (text "{}") ≡ (new, some redacted_token_loaded))))
    × ((broken : Text) (e : Error)
        → one_document.unmarshal broken ≡ err e
        → unmarshal_json one_document new broken ≡ (new, some e))
unmarshal_json_example =
    unmarshal_json-marshal_json one_document one_document-decodes secret new (text "{}")
      secret-IsValidText secret-marshalled
