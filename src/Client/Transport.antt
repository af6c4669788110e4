-- ===== src/Client/Transport.antt =====
-- client/client.go: requests and responses, what the service calls outside the repository, and the
-- bounded reading of a response.
use theo_forge.Prelude.{
  ℕ, ◌+◌, ◌-◌, Text, Option, none, some, List, [], ◌∷◌, ◌++◌, length, leb, ltb, eqb, if◌then◌else◌,
  Result, ok, err, Error, wrap, wrapping, fail_if, response_too_large, ◌>>=◌, ◌>>◌, take, decimal,
}
use theo_forge.Model.Workflows.{WorkflowModel, WorkflowTemplateModel, CronWorkflowModel}
use theo_forge.Client.Service.{HttpClient}

-- `maxResponseBodyBytes`
abbrev pub max_response_body_bytes : ℕ
max_response_body_bytes = 33554432

-- An `io.Reader`, as what its calls of `Read` return: bytes, and with the last of them `io.EOF`
-- (`none`) or an error.
pub data Reader : Type 0 where
  chunk : Text → Reader → Reader
  last : Text → Option Error → Reader

unfoldable pub at_end : Text → Option Error → Result Text
at_end c none = ok c
at_end c (some e) = err e

-- `io.ReadAll(io.LimitReader(r, n))`: a read asks for no more bytes than are left of `n`, so that the
-- error that comes with more bytes is not seen.
unfoldable pub read_all_limited : ℕ → Reader → Result Text
read_all_limited n (last c ending) =
    if eqb n 0 then ok [] else if leb (length c) n then at_end c ending else ok (take n c)
read_all_limited n (chunk c r) =
    let rest = read_all_limited (n - length c) r in
    if eqb n 0
    then ok []
    else if leb (length c) n
    then (rest >>= λ more. ok (c ++ more))
    else ok (take n c)

-- The limit, an int64, is less than its greatest value.
unfoldable pub read_bounded_body : Reader → ℕ → Result Text
read_bounded_body r limit = do
  body ← wrapping "client: read response: %w" [] (read_all_limited (limit + 1) r)
  fail_if (ltb limit (length body))
      (wrap "%w (limit %d bytes)" (decimal limit ∷ []) response_too_large)
  ok body

-- `http.Response`. The status is not negative, which net/http ensures of a response that it reads.
pub record Response : Type 0 where
  pub status_code : ℕ
  pub body : Reader

-- What `Do` returns, and how long it has taken.
pub record Reply : Type 0 where
  pub outcome : Result Response
  pub latency_ms : ℕ

-- `http.Request`
pub record Request : Type 0 where
  pub method : Text
  pub url : Text
  pub body : Option Text
  pub header : List (Text × Text)

-- A request, and the client that has sent it.
pub record Sent : Type 0 where
  pub client : HttpClient
  pub request : Request

pub record WorkflowCreateRequest : Type 0 where
  pub workflow : WorkflowModel
  pub namespace : Text

pub record WorkflowTemplateCreateRequest : Type 0 where
  pub template : WorkflowTemplateModel
  pub namespace : Text

pub record CronWorkflowCreateRequest : Type 0 where
  pub cron_workflow : CronWorkflowModel
  pub namespace : Text

-- The bodies that `json.Marshal` is given.
pub data RequestBody : Type 0 where
  workflow_body : WorkflowCreateRequest → RequestBody
  template_body : WorkflowTemplateCreateRequest → RequestBody
  cron_body : CronWorkflowCreateRequest → RequestBody

pub record ListWorkflowsResponse : Type 0 where
  pub items : List WorkflowModel

pub record ArgoServerInfoLink : Type 0 where
  pub name : Text
  pub scope : Text
  pub url : Text

-- `Extra`, which is never read or written by the JSON decoder, is left out.
pub record ArgoServerInfo : Type 0 where
  pub managed_namespace : Text
  pub links : List ArgoServerInfoLink
  pub modals_closed : List Text
  pub nav_color : Text

pub record ArgoServerVersion : Type 0 where
  pub version : Text
  pub build_date : Text
  pub git_commit : Text
  pub git_tag : Text
  pub git_tree_state : Text
  pub go_version : Text
  pub compiler : Text
  pub platform : Text

-- What the client uses of the standard library and of the server: `json.Marshal` and `json.Unmarshal`
-- by type, `url.PathEscape`, the checks of `http.NewRequestWithContext`, and the reply to a request
-- after those that have been sent, latest first.
pub record Net : Type 0 where
  pub marshal : RequestBody → Result Text
  pub unmarshal_workflow : Text → Result WorkflowModel
  pub unmarshal_list : Text → Result ListWorkflowsResponse
  pub unmarshal_template : Text → Result WorkflowTemplateModel
  pub unmarshal_cron : Text → Result CronWorkflowModel
  pub unmarshal_info : Text → Result ArgoServerInfo
  pub unmarshal_version : Text → Result ArgoServerVersion
  pub path_escape : Text → Text
  pub new_request : Text → Text → Result (Unit {0})
  pub answer : List Sent → Sent → Reply
