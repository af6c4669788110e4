-- ===== src/Client/Answers.antt =====
-- What `doRequest` of client/client.go returns, on every outcome.
use theo_forge.Prelude.{
  ℕ, ◌≤◌, ◌<◌, String, sym, ◌∙◌, [], Text, Option, none, ◌++◌, length, leb, Bool-cases, ok, err,
  Error, wrap, api_error, ◌≡◌, ◌≢◌, ◌+◌, ltb, refl, ◌↔◌, ◌⊎◌, inl, inr, arith, Result-cases,
}
use theo_forge.Client.Transport.{
  Net, RequestBody, Response, read_all_limited, read_bounded_body, max_response_body_bytes,
}
use theo_forge.Client.Bounded.{whole, failure, read_bounded_body_iff}
use theo_forge.Client.Logging.{log_safe, recover}
use theo_forge.Client.Requests.{
  log_ended, Session, log_call, send, marshal_body, receive, refused, settle, do_request,
}
use theo_forge.Client.Exchanges.{sent_by, requested}

-- The body of a response is read whole.
pub record IsRead (resp : Response) (body : Text) : Type 0 where
  pub whole_body : whole resp.body ≡ body
  pub ends : failure resp.body ≡ none
  pub fits : length body ≤ max_response_body_bytes

IsRead_iff :
    (resp : Response) (body : Text)
    → (read_bounded_body resp.body max_response_body_bytes ≡ ok body) ↔ IsRead resp body
IsRead_iff resp body = (
  λ h.
      let (a, b, c) = (read_bounded_body_iff resp.body max_response_body_bytes body).0 h in
      record { whole_body = a; ends = b; fits = c },
  λ r.
      (read_bounded_body_iff resp.body max_response_body_bytes body).1
        (r.whole_body, r.ends, r.fits),
)

-- The error of a body that is not read whole is no APIError.
read-no_api_error :
    (resp : Response) (e : Error) (n : ℕ) (m : Text)
    → read_bounded_body resp.body max_response_body_bytes ≡ err e
    → e ≢ api_error n m
unfolding read_bounded_body
read-no_api_error resp e n m h k =
    elim (Result-cases (read_all_limited (max_response_body_bytes + 1) resp.body)) [
      | inl (body, f) ↦ elim (Bool-cases (ltb max_response_body_bytes (length body))) [
        | inl b ↦ ground (arith, f, b, h, k)
        | inr b ↦ ground (arith, f, b, h, k)
      ]
      | inr (d, f) ↦ ground (arith, f, h, k)
    ]

module _ (net : Net) where
  receive-ok_iff :
      (method path : Text) (latency_ms : ℕ) (resp : Response) (s : Session) (out : Text)
      → ((receive net method path latency_ms resp s).0 ≡ ok out)
        ↔ ((resp.status_code < 400) × IsRead resp out)
  unfolding receive log_call log_safe recover log_ended
  receive-ok_iff method path latency_ms resp s out =
      elim (Result-cases (read_bounded_body resp.body max_response_body_bytes)) [
        | inl (body, e) ↦
            let r = (IsRead_iff resp body).0 e in
            elim (Bool-cases (leb 400 resp.status_code)) [
              | inl b ↦ (λ h. ground (arith, e, b, h), λ (l, k). ground (arith, b, l))
              | inr b ↦ (
                λ h. (ground (arith, b), (IsRead_iff resp out).0 (ground (arith, e, b, h))),
                λ (l, k). ground (arith, e, b, (IsRead_iff resp out).1 k),
              )
            ]
        | inr (d, e) ↦
            (λ h. ground (arith, e, h), λ (l, k). ground (arith, e, (IsRead_iff resp out).1 k))
      ]

  receive-api_error_iff :
      (method path : Text) (latency_ms : ℕ) (resp : Response) (s : Session) (n : ℕ) (m : Text)
      → ((receive net method path latency_ms resp s).0 ≡ err (api_error n m))
        ↔ ((n ≡ resp.status_code) × (400 ≤ n) × IsRead resp m)
  unfolding receive log_call log_safe recover log_ended
  receive-api_error_iff method path latency_ms resp s n m =
      elim (Result-cases (read_bounded_body resp.body max_response_body_bytes)) [
        | inl (body, e) ↦ elim (Bool-cases (leb 400 resp.status_code)) [
          | inl b ↦ (
            λ h.
                let same : n ≡ resp.status_code = ground (arith, e, b, h) in
                (same, ground (arith, b, same), (IsRead_iff resp m).0 (ground (arith, e, b, h))),
            λ (a, l, k). ground (arith, e, a, b, (IsRead_iff resp m).1 k),
          )
          | inr b ↦ (λ h. ground (arith, e, b, h), λ (a, l, k). ground (arith, a, b, l))
        ]
        | inr (d, e) ↦ (
          λ h. elim (read-no_api_error resp d n m e (ground (arith, e, h))) [ ],
          λ (a, l, k). ground (arith, e, (IsRead_iff resp m).1 k),
        )
      ]

  -- A request that is made, and the response that the server gives to it.
  pub record IsAnswered (method path : Text) (body : Option RequestBody) (s : Session)
      (resp : Response) : Type 0 where
    pub data_ : Option Text
    pub marshalled : marshal_body net body ≡ ok data_
    pub made : net.new_request method (s.service.host ++ path) ≡ ok tt
    pub replied : (net.answer s.sent (sent_by s.service method path data_)).outcome ≡ ok resp

  do_request-IsAnswered :
      {method path : Text} {body : Option RequestBody} {s : Session} {resp : Response}
      → IsAnswered method path body s resp
      → (latency_ms : ℕ) × (t : Session) × ((do_request net method path body s).0
          ≡ (receive net method path latency_ms resp t).0)
  unfolding do_request send settle
  do_request-IsAnswered {method} {path} {body} {s} a = (
    (net.answer s.sent (sent_by s.service method path a.data_)).latency_ms,
    requested method path a.data_ s,
    rw (a.marshalled, a.made, a.replied) refl,
  )

  -- There is a response, or what is returned wraps the error of what has failed.
  do_request-cases :
      (method path : Text) (body : Option RequestBody) (s : Session)
      → ((resp : Response) × IsAnswered method path body s resp)
        ⊎ ((format : String) × (d : Error) × ((do_request net method path body s).0
              ≡ err (wrap format [] d)))
  unfolding do_request send settle refused log_call log_safe recover log_ended
  do_request-cases method path body s = elim (Result-cases (marshal_body net body)) [
    | inr (d, e) ↦ inr ("marshal request body: %w", d, rw e refl)
    | inl (data_, e) ↦ elim (Result-cases (net.new_request method (s.service.host ++ path))) [
      | inr (d, f) ↦ inr ("create request: %w", d, rw (e, f) refl)
      | inl (done, f) ↦
          let made : net.new_request method (s.service.host ++ path) ≡ ok tt = f in
          elim (Result-cases (net.answer s.sent (sent_by s.service method path data_)).outcome) [
            | inr (d, g) ↦ inr ("execute request: %w", d, rw (e, made, g) refl)
            | inl (resp, g) ↦
                inl (resp, record { data_ = data_; marshalled = e; made = made; replied = g })
          ]
    ]
  ]

  -- A body is returned exactly if the request is made and answered with a status below 400, and it is
  -- the whole body of the response, of at most 32 MiB.
  pub do_request-ok_iff :
      (method path : Text) (body : Option RequestBody) (s : Session) (out : Text)
      → ((do_request net method path body s).0 ≡ ok out) ↔ (
          (resp : Response) × IsAnswered method path body s resp
          × (resp.status_code < 400)
          × IsRead resp out)
  do_request-ok_iff method path body s out = (
    λ h. elim (do_request-cases method path body s) [
      | inl (resp, a) ↦
          let (latency_ms, t, same) = do_request-IsAnswered a in
          let (l, k) = (receive-ok_iff method path latency_ms resp t out).0 (sym same ∙ h) in
          (resp, a, l, k)
      | inr (format, d, e) ↦ ground (arith, e, h)
    ],
    λ (resp, a, l, k).
        let (latency_ms, t, same) = do_request-IsAnswered a in
        same ∙ (receive-ok_iff method path latency_ms resp t out).1 (l, k),
  )

  -- An APIError is returned exactly if the request is made and answered with that status, which is 400
  -- or more, and its message is the whole body of the response, of at most 32 MiB.
  pub do_request-api_error_iff :
      (method path : Text) (body : Option RequestBody) (s : Session) (n : ℕ) (m : Text)
      → ((do_request net method path body s).0 ≡ err (api_error n m)) ↔ (
          (resp : Response) × IsAnswered method path body s resp
          × (n ≡ resp.status_code)
          × (400 ≤ n)
          × IsRead resp m)
  do_request-api_error_iff method path body s n m = (
    λ h. elim (do_request-cases method path body s) [
      | inl (resp, a) ↦
          let (latency_ms, t, same) = do_request-IsAnswered a in
          let (e, l, k) =
            (receive-api_error_iff method path latency_ms resp t n m).0 (sym same ∙ h) in
          (resp, a, e, l, k)
      | inr (format, d, e) ↦ ground (arith, e, h)
    ],
    λ (resp, a, e, l, k).
        let (latency_ms, t, same) = do_request-IsAnswered a in
        same ∙ (receive-api_error_iff method path latency_ms resp t n m).1 (e, l, k),
  )
