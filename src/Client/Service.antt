-- ===== src/Client/Service.antt =====
-- client/client.go: the service, its logger, its HTTP client and the token that it sends.
use theo_forge.Prelude.{
  ℕ, Bool, true, not, Text, text, Option, none, some, [], ◌++◌, is_empty, trim_right, if◌then◌else◌,
  has_prefix,
}
use theo_forge.Client.Logging.{Logger, noop}

-- `default_client_timeout`, in milliseconds
abbrev pub default_client_timeout : ℕ
default_client_timeout = 30000

-- `tls.VersionTLS12`
abbrev pub version_tls12 : ℕ
version_tls12 = 0x0303

-- The `http.Client` that the service makes.
pub record StandardClient : Type 0 where
  pub timeout : ℕ
  pub insecure_skip_verify : Bool
  pub min_version : ℕ

-- `injected n` is a client that a consumer has set.
pub data HttpClient : Type 0 where
  injected : ℕ → HttpClient
  standard : StandardClient → HttpClient

pub record WorkflowsService : Type 0 where
  pub host : Text
  pub token : Text
  pub namespace : Text
  pub verify_ssl : Bool
  pub http_client : Option HttpClient
  pub logger : Option Logger

unfoldable pub logger_of : WorkflowsService → Logger
logger_of s = elim s.logger [ none ↦ noop | some l ↦ l ]

unfoldable pub new_workflows_service : Text → Text → Text → WorkflowsService
new_workflows_service host token namespace = record {
  host = trim_right host b'/';
  token = token;
  namespace = namespace;
  verify_ssl = true;
  http_client = none;
  logger = none;
}

-- The `http.Client` that is made where none is set.
unfoldable pub default_client : WorkflowsService → HttpClient
default_client s = standard (record {
  timeout = default_client_timeout;
  insecure_skip_verify = not s.verify_ssl;
  min_version = version_tls12;
})

-- The method `httpClient`: the client, and the service that keeps it.
unfoldable pub resolve_client : WorkflowsService → HttpClient × WorkflowsService
resolve_client s = elim s.http_client [
  | some c ↦ (c, s)
  | none ↦ (default_client s, record s { http_client = some (default_client s) })
]

unfoldable pub format_token : WorkflowsService → Text
format_token s =
    if is_empty s.token
    then []
    else if has_prefix s.token (text "Bearer ")
    then s.token
    else text "Bearer " ++ s.token
