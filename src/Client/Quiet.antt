-- ===== src/Client/Quiet.antt =====
-- The loggers of client/logger.go take no part in what the methods of client/client.go return and send.
use theo_forge.Prelude.{
  Text, Option, none, List, [], ◌++◌, leb, Result, ok, err, fail_if, api_error, wrapping, ◌≡◌, refl,
  sym, ap, ◌∙◌, arith, Result-cases, Option-cases, inl, inr,
}
use theo_forge.Client.Logging.{log_safe, recover}
use theo_forge.Client.Service.{resolve_client, default_client}
use theo_forge.Client.Transport.{
  Net, RequestBody, Request, Reply, read_bounded_body, max_response_body_bytes,
}
use theo_forge.Client.Requests.{
  Session, Client, lift, ◌>>=◌, ◌>>◌, and_then, log_call, log_ended, header, send, marshal_body,
  receive, refused, settle, do_request,
}
use theo_forge.Client.Runs.{settle-IsAfter, header-eq}

-- A state without its logger and its log.
abbrev pub quiet : Session → Session
quiet s = record { service = record s.service { logger = none }; sent = s.sent; log = [] }

-- A method that returns and does the same for every logger.
pub record IsQuiet {A : Type 0} (m : Client A) : Type 0 where
  pub returned : (s t : Session) → quiet s ≡ quiet t → (m s).0 ≡ (m t).0
  pub left : (s t : Session) → quiet s ≡ quiet t → quiet (m s).1 ≡ quiet (m t).1

pub lift-IsQuiet : {A : Type 0} (r : Result A) → IsQuiet (lift r)
lift-IsQuiet r = record { returned = λ s t h. refl; left = λ s t h. h }

pub >>=-IsQuiet :
    {A B : Type 0} (m : Client A) (f : A → Client B)
    → IsQuiet m
    → ((a : A) → IsQuiet (f a))
    → IsQuiet (m >>= f)
>>=-IsQuiet m f q k = record {
  returned = λ s t h. (go (m s) (m t) (q.returned s t h) (q.left s t h)).0;
  left = λ s t h. (go (m s) (m t) (q.returned s t h) (q.left s t h)).1;
}
  where
    go :
        (r u : Result _ × Session)
        → r.0 ≡ u.0
        → quiet r.1 ≡ quiet u.1
        → ((and_then r f).0 ≡ (and_then u f).0) × (quiet (and_then r f).1 ≡ quiet (and_then u f).1)
    go (ok a, s) (ok b, t) e h =
        let same : a ≡ b = cc in rw same ((k b).returned s t h, (k b).left s t h)
    go (ok a, s) (err d, t) e h = ground (arith, e)
    go (err c, s) (ok b, t) e h = ground (arith, e)
    go (err c, s) (err d, t) e h = let same : c ≡ d = cc in rw same (refl, h)

pub lift->>=-IsQuiet :
    {A B : Type 0} (r : Result A) (f : A → Client B)
    → ((a : A) → IsQuiet (f a))
    → IsQuiet (lift r >>= f)
lift->>=-IsQuiet r f k = >>=-IsQuiet (lift r) f (lift-IsQuiet r) k

ending-result :
    (r : Result Text) (f : Text → Result (Unit {0})) (s t : Session)
    → ((lift r >>= λ a. lift (f a) >> lift (ok a)) s).0
      ≡ ((lift r >>= λ a. lift (f a) >> lift (ok a)) t).0
ending-result (err e) f s t = refl
ending-result (ok a) f s t = elim (Result-cases (f a)) [
  | inl (done, e) ↦ rw e refl
  | inr (d, e) ↦ rw e refl
]

module _ (net : Net) where
  settle-result :
      (method path : Text) (reply : Reply) (s t : Session)
      → (settle net method path reply s).0 ≡ (settle net method path reply t).0
  unfolding settle receive refused log_call log_safe recover log_ended
  settle-result method path reply s t = elim (Result-cases reply.outcome) [
    | inl (resp, e) ↦ rw e (
        ending-result (read_bounded_body resp.body max_response_body_bytes)
          (λ body. fail_if (leb 400 resp.status_code) (api_error resp.status_code body)) _ _)
    | inr (d, e) ↦ rw e refl
  ]

  settle-left :
      (method path : Text) (reply : Reply) (s : Session)
      → quiet (settle net method path reply s).1 ≡ quiet s
  settle-left method path reply s =
      let (service, sent) = settle-IsAfter net method path reply s in rw (service, sent) refl

  settle-IsQuiet : (method path : Text) (reply : Reply) → IsQuiet (settle net method path reply)
  settle-IsQuiet method path reply = record {
    returned = λ s t h. settle-result method path reply s t;
    left = λ s t h. settle-left method path reply s ∙ h ∙ sym (settle-left method path reply t);
  }

  send-quiet :
      (request : Request) (s : Session)
      → ((send net request s).0 ≡ (send net request (quiet s)).0)
        × (quiet (send net request s).1 ≡ quiet (send net request (quiet s)).1)
  unfolding send resolve_client default_client
  send-quiet request s = elim (Option-cases s.service.http_client) [
    | inl e ↦ rw e (refl, refl)
    | inr (c, e) ↦ rw e (refl, refl)
  ]

  send-IsQuiet : (request : Request) → IsQuiet (send net request)
  send-IsQuiet request = record {
    returned = λ s t h.
        (send-quiet request s).0
        ∙ ap (λ q. (send net request q).0) h
        ∙ sym (send-quiet request t).0;
    left = λ s t h.
        (send-quiet request s).1
        ∙ ap (λ q. quiet (send net request q).1) h
        ∙ sym (send-quiet request t).1;
  }

  -- `doRequest` with the URL and the headers of a service.
  abbrev request_with : Text → Text → List (Text × Text) → Text → Option RequestBody → Client Text
  request_with method url hd path body =
      lift (wrapping "marshal request body: %w" [] (marshal_body net body)) >>= λ data_.
      lift (wrapping "create request: %w" [] (net.new_request method url)) >>= λ done.
      send net (record { method = method; url = url; body = data_; header = hd }) >>= λ reply.
      settle net method path reply

  request_with-IsQuiet :
      (method url : Text) (hd : List (Text × Text)) (path : Text) (body : Option RequestBody)
      → IsQuiet (request_with method url hd path body)
  request_with-IsQuiet method url hd path body =
      lift->>=-IsQuiet (wrapping "marshal request body: %w" [] (marshal_body net body)) _ λ data_.
        lift->>=-IsQuiet (wrapping "create request: %w" [] (net.new_request method url)) _ λ done.
          >>=-IsQuiet (send net _) _ (send-IsQuiet _) λ reply. settle-IsQuiet method path reply

  -- Two states that differ in their loggers have the same headers and URLs.
  do_request-request_with :
      (method path : Text) (body : Option RequestBody) (s t : Session)
      → quiet s ≡ quiet t
      → do_request net method path body t
        ≡ request_with method (s.service.host ++ path) (header s.service) path body t
  unfolding do_request
  do_request-request_with method path body s t h =
      let host : s.service.host ≡ t.service.host = ap (λ x. x.service.host) h in
      let same : header s.service ≡ header t.service =
        header-eq s.service t.service (ap (λ x. x.service.token) h) in
      rw (same, host) refl

  pub do_request-IsQuiet :
      (method path : Text) (body : Option RequestBody) → IsQuiet (do_request net method path body)
  do_request-IsQuiet method path body = record {
    returned = λ s t h.
        let q = request_with-IsQuiet method (s.service.host ++ path) (header s.service) path body in
        rw
          (
            do_request-request_with method path body s s refl,
            do_request-request_with method path body s t h,
          )
          (q.returned s t h);
    left = λ s t h.
        let q = request_with-IsQuiet method (s.service.host ++ path) (header s.service) path body in
        rw
          (
            do_request-request_with method path body s s refl,
            do_request-request_with method path body s t h,
          )
          (q.left s t h);
  }
