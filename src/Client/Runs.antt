-- ===== src/Client/Runs.antt =====
-- What holds of client/client.go after every sequence of calls of a service: which requests have been
-- sent, by which HTTP client, and what its logger has been given.
use theo_forge.Prelude.{
  ℕ, ◌+◌, ◌≤◌, Text, text, List, [], ◌∷◌, length, leb, Result, ok, err, Error, fail_if, api_error,
  ◌≡◌, refl, arith, All, Result-cases, inl, inr, Option,
}
use theo_forge.Int.{pos}
use theo_forge.Client.Paths.{IsUnreserved}
use theo_forge.Client.Logging.{
  Any, str, int, message, Level, debug_level, error_level, Entry, log_attrs, called, kv_to_attrs,
  log_safe, recover,
}
use theo_forge.Client.Service.{WorkflowsService, resolve_client, format_token}
use theo_forge.Client.Transport.{
  Net, Reply, Response, Sent, read_bounded_body, max_response_body_bytes,
}
use theo_forge.Client.Requests.{
  Session, lift, ◌>>=◌, ◌>>◌, header, log_call, log_ended, receive, refused, settle,
}
use theo_forge.Client.Exchanges.{IsEndpoint, sent_by, requested, Step, silent, exchange}
use theo_forge.Client.Calls.{Call, after, after_all, after-Step}

-- A request to an endpoint, sent by a service.
abbrev pub IsSentBy : WorkflowsService → Sent → Type 0
IsSentBy v x =
    (method : Text) × (path : Text) × (body : Option Text) × IsEndpoint method path
    × (x ≡ sent_by v method path body)

-- The message of an exchange with an endpoint: its method and path, and the status and the time of the
-- response that the server has given to that request, or the error of the exchange.
pub data IsMessage (net : Net) (v : WorkflowsService) : Level → Text → List Any → Type 0 where
  response :
      (method path : Text) (body : Option Text) (before : List Sent) (resp : Response)
      → IsEndpoint method path
      → (net.answer before (sent_by v method path body)).outcome ≡ ok resp
      → IsMessage net v debug_level (text "argo response") (
          str (text "method")
          ∷ str method
          ∷ str (text "path")
          ∷ str path
          ∷ str (text "status")
          ∷ int (pos resp.status_code)
          ∷ str (text "latency_ms")
          ∷ int (pos (net.answer before (sent_by v method path body)).latency_ms)
          ∷ [])
  failed :
      (method path : Text) (body : Option Text) (before : List Sent) (e : Error)
      → IsEndpoint method path
      → (net.answer before (sent_by v method path body)).outcome ≡ err e
      → IsMessage net v error_level (text "argo request failed") (
          str (text "method")
          ∷ str method
          ∷ str (text "path")
          ∷ str path
          ∷ str (text "err")
          ∷ message e
          ∷ [])

pub data IsLogged (net : Net) (v : WorkflowsService) : Entry → Type 0 where
  by_slog :
      {level : Level} {msg : Text} {kv : List Any}
      → IsMessage net v level msg kv
      → IsLogged net v (log_attrs level msg (kv_to_attrs kv))
  by_call :
      {level : Level} {msg : Text} {kv : List Any}
      → IsMessage net v level msg kv
      → IsLogged net v (called level msg kv)

-- The state of a service that was `v` when the program began to call it.
pub record IsRun (net : Net) (v : WorkflowsService) (s : Session) : Type 0 where
  pub host : s.service.host ≡ v.host
  pub token : s.service.token ≡ v.token
  pub client : (resolve_client s.service).0 ≡ (resolve_client v).0
  pub sent : All (IsSentBy v) s.sent
  pub log : All (IsLogged net v) s.log

-- A state that differs in its log.
abbrev pub IsAfter : Session → Session → Type 0
IsAfter s t = (t.service ≡ s.service) × (t.sent ≡ s.sent)

-- What ends `doRequest` changes no state.
ending-kept :
    (r : Result Text) (f : Text → Result (Unit {0})) (t : Session)
    → ((lift r >>= λ a. lift (f a) >> lift (ok a)) t).1 ≡ t
ending-kept (err e) f t = refl
ending-kept (ok a) f t = elim (Result-cases (f a)) [
  | inl (done, e) ↦ rw e refl
  | inr (d, e) ↦ rw e refl
]

module _ (net : Net) where
  -- What is left after a response has been logged.
  receive-left :
      (method path : Text) (latency_ms : ℕ) (resp : Response) (s : Session)
      → (receive net method path latency_ms resp s).1
        ≡ (log_call debug_level
            (text "argo response")
            (str (text "method")
              ∷ str method
              ∷ str (text "path")
              ∷ str path
              ∷ str (text "status")
              ∷ int (pos resp.status_code)
              ∷ str (text "latency_ms")
              ∷ int (pos latency_ms)
              ∷ [])
            s).1
  unfolding receive log_call log_safe recover log_ended
  receive-left method path latency_ms resp s =
      ending-kept (read_bounded_body resp.body max_response_body_bytes)
        (λ body. fail_if (leb 400 resp.status_code) (api_error resp.status_code body)) _

  pub settle-IsAfter :
      (method path : Text) (reply : Reply) (s : Session)
      → IsAfter s (settle net method path reply s).1
  unfolding settle refused log_call log_safe recover log_ended
  settle-IsAfter method path reply s = elim (Result-cases reply.outcome) [
    | inl (resp, e) ↦ rw (e, receive-left method path reply.latency_ms resp s) (refl, refl)
    | inr (d, e) ↦ rw e (refl, refl)
  ]

pub header-eq : (v w : WorkflowsService) → v.token ≡ w.token → header v ≡ header w
unfolding header format_token
header-eq v w h = rw h refl

module _ (net : Net) (v : WorkflowsService) where
  Step-sent : {s t : Session} → Step net s t → length t.sent ≤ length s.sent + 1
  Step-sent silent = omega arith
  Step-sent {s} (exchange method path body h) =
      let (service, sent) =
        settle-IsAfter net method path (net.answer s.sent (sent_by s.service method path body))
          (requested method path body s) in
      rw sent (omega arith)

-- A service that has not been called.
abbrev pub fresh : WorkflowsService → Session
fresh v = record { service = v; sent = []; log = [] }

module _ (net : Net) (keeps : (s : Text) → All IsUnreserved s → net.path_escape s ≡ s) where
  -- No call sends more than one request.
  pub after_all-sent_bounded :
      (cs : List Call) (s : Session) → length (after_all net cs s).sent ≤ length s.sent + length cs
  after_all-sent_bounded [] s = omega arith
  after_all-sent_bounded (c ∷ cs) s =
      let rest = after_all-sent_bounded cs (after net c s) in
      let one = Step-sent net s.service (after-Step net keeps c s) in omega (arith, rest, one)
