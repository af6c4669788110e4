-- ===== src/Client/Redaction.antt =====
-- client/redact.go: the service as it is printed, marshalled and read back, without its token.
use theo_forge.Prelude.{
  Result, ok, err, Bool, Text, text, Option, none, some, is_empty, if◌then◌else◌, ◌==◌, Error,
  redacted_token_loaded,
}
use theo_forge.Client.Service.{WorkflowsService}

abbrev pub redacted_token_placeholder : Text
redacted_token_placeholder = text "***"

-- What `String` gives to `fmt.Sprintf`: the host, the namespace, the token and VerifySSL.
unfoldable pub string : Option WorkflowsService → Option (Text × Text × Text × Bool)
string none = none
string (some s) = some (
  s.host,
  s.namespace,
  if is_empty s.token then text "<empty>" else redacted_token_placeholder,
  s.verify_ssl,
)

-- `workflowsServiceJSON`, as what is given to the JSON encoder and what the decoder fills in.
pub record WorkflowsServiceJson : Type 0 where
  pub host : Text
  pub token : Text
  pub namespace : Text
  pub verify_ssl : Bool

-- `json.Marshal` of that shape, and `json.Unmarshal` into it.
pub record ServiceCodec : Type 0 where
  pub marshal : WorkflowsServiceJson → Result Text
  pub unmarshal : Text → Result WorkflowsServiceJson

-- The value that `MarshalJSON` hands to the encoder.
unfoldable pub on_wire : WorkflowsService → WorkflowsServiceJson
on_wire s = record {
  host = s.host;
  token = if is_empty s.token then s.token else redacted_token_placeholder;
  namespace = s.namespace;
  verify_ssl = s.verify_ssl;
}

unfoldable pub marshal_json : ServiceCodec → Option WorkflowsService → Result Text
marshal_json codec none = ok (text "null")
marshal_json codec (some s) = codec.marshal (on_wire s)

-- `UnmarshalJSON` after the decoder has filled `raw`: the new state, and the error.
unfoldable pub load : WorkflowsService → WorkflowsServiceJson → WorkflowsService × Option Error
load s raw = if raw.token == redacted_token_placeholder then (s, some redacted_token_loaded) else (
  record s {
    host = raw.host;
    token = raw.token;
    namespace = raw.namespace;
    verify_ssl = raw.verify_ssl;
  },
  none,
)

unfoldable pub unmarshal_json :
    ServiceCodec → WorkflowsService → Text → WorkflowsService × Option Error
unmarshal_json codec s data_ = elim (codec.unmarshal data_) [
  | err e ↦ (s, some e)
  | ok raw ↦ load s raw
]
