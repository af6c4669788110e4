-- ===== src/Client/Requests.antt =====
-- client/client.go: the state of a service, and `doRequest`.
use theo_forge.Prelude.{
  ℕ, Bool, Text, text, Option, none, some, List, [], ◌∷◌, ◌++◌, is_empty, leb, if◌then◌else◌,
  Result, ok, err, Error, panicked, true, false, wrap, wrapping, api_error, fail_if,
}
use theo_forge.Int.{pos}
use theo_forge.Effects.{Stateful}
pub use theo_forge.Effects.{lift, and_then, ◌>>=◌, ◌>>◌}
use theo_forge.Client.Logging.{
  Any, str, int, message, Level, debug_level, error_level, Entry, log_at, log_safe,
}
use theo_forge.Client.Service.{WorkflowsService, logger_of, resolve_client, format_token}
use theo_forge.Client.Transport.{
  Reply, Request, Sent, RequestBody, Net, Response, read_bounded_body, max_response_body_bytes,
}

-- A service, the requests that it has sent, latest first, and what its logger has been given.
pub record Session : Type 0 where
  pub service : WorkflowsService
  pub sent : List Sent
  pub log : List Entry

abbrev pub Client {ℓ} : Type ℓ → Type ℓ
Client A = Stateful Session A

abbrev pub service_of : Client WorkflowsService
service_of s = (ok s.service, s)

-- A panic that is not recovered ends the method, and is not handled by it.
unfoldable pub log_ended : Bool → Result (Unit {0})
log_ended true = err panicked
log_ended false = ok tt

-- `logSafe(s.logger().Debug, ...)` and `logSafe(s.logger().Error, ...)`
unfoldable pub log_call : Level → Text → List Any → Client (Unit {0})
log_call level msg kv s =
    let (panicking, log) =
      log_safe (λ m kv log. log_at (logger_of s.service) level m kv log) msg kv s.log in
    (log_ended panicking, record s { log = log })

unfoldable pub header : WorkflowsService → List (Text × Text)
header s =
    (text "Content-Type", text "application/json")
    ∷ (if is_empty (format_token s) then [] else (text "Authorization", format_token s) ∷ [])

-- The first of the two results of `doRequest`, the second being the error: with an APIError the body, which is
-- its message, and with another error nil.
unfoldable pub returned_body : Result Text → Text
returned_body (ok body) = body
returned_body (err (api_error status body)) = body
returned_body (err e) = []

module _ (net : Net) where
  -- `s.httpClient().Do(req)`
  unfoldable pub send : Request → Client Reply
  send request s =
      let (client, service) = resolve_client s.service in
      let sent : Sent = record { client = client; request = request } in
      (ok (net.answer s.sent sent), record s { service = service; sent = sent ∷ s.sent })

  unfoldable pub marshal_body : Option RequestBody → Result (Option Text)
  marshal_body none = ok none
  marshal_body (some body) = elim (net.marshal body) [ ok data_ ↦ ok (some data_) | err e ↦ err e ]

  -- What `doRequest` does of a response; the body that it also returns with an APIError is
  -- `returned_body` of the result.
  unfoldable pub receive : Text → Text → ℕ → Response → Client Text
  receive method path latency_ms resp = do
    log_call debug_level (text "argo response") (
        str (text "method")
        ∷ str method
        ∷ str (text "path")
        ∷ str path
        ∷ str (text "status")
        ∷ int (pos resp.status_code)
        ∷ str (text "latency_ms")
        ∷ int (pos latency_ms)
        ∷ [])
    resp_body ← lift (read_bounded_body resp.body max_response_body_bytes)
    lift (fail_if (leb 400 resp.status_code) (api_error resp.status_code resp_body))
    lift (ok resp_body)

  unfoldable pub refused : Text → Text → Error → Client Text
  refused method path e = do
    log_call error_level (text "argo request failed") (
        str (text "method")
        ∷ str method
        ∷ str (text "path")
        ∷ str path
        ∷ str (text "err")
        ∷ message e
        ∷ [])
    lift (err (wrap "execute request: %w" [] e))

  unfoldable pub settle : Text → Text → Reply → Client Text
  settle method path reply = elim reply.outcome [
    | err e ↦ refused method path e
    | ok resp ↦ receive method path reply.latency_ms resp
  ]

  unfoldable pub do_request : Text → Text → Option RequestBody → Client Text
  do_request method path body = do
    s ← service_of
    data_ ← lift (wrapping "marshal request body: %w" [] (marshal_body body))
    lift (wrapping "create request: %w" [] (net.new_request method (s.host ++ path)))
    reply ← send (record { method = method; url = s.host ++ path; body = data_; header = header s })
    settle method path reply
