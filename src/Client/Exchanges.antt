-- ===== src/Client/Exchanges.antt =====
-- What a method of client/client.go does to the service's state: nothing, or one exchange with an
-- endpoint of the Argo server.
use theo_forge.Prelude.{Text, text, Option, [], ◌∷◌, ◌++◌, Result, ok, err, wrapping, ◌≡◌, refl}
use theo_forge.Client.Service.{WorkflowsService, resolve_client}
use theo_forge.Client.Transport.{Net, RequestBody, Sent}
use theo_forge.Client.Requests.{
  Session, Client, lift, ◌>>=◌, and_then, header, send, marshal_body, settle, do_request,
}
use theo_forge.Client.Paths.{IsK8sName}

-- The ends of the paths of the lifecycle operations.
pub data IsAction : Text → Type 0 where
  stopping : IsAction (text "stop")
  terminating : IsAction (text "terminate")
  suspending : IsAction (text "suspend")
  resuming : IsAction (text "resume")

-- The methods and paths of the Argo server that the client uses.
pub data IsEndpoint : Text → Text → Type 0 where
  listing : {ns : Text} → IsK8sName ns → IsEndpoint (text "GET") (text "/api/v1/workflows/" ++ ns)
  creation : {ns : Text} → IsK8sName ns → IsEndpoint (text "POST") (text "/api/v1/workflows/" ++ ns)
  linting :
      {ns : Text}
      → IsK8sName ns
      → IsEndpoint (text "POST") ((text "/api/v1/workflows/" ++ ns) ++ text "/lint")
  fetching :
      {ns name : Text}
      → IsK8sName ns
      → IsK8sName name
      → IsEndpoint (text "GET") (text "/api/v1/workflows/" ++ (ns ++ b'/' ∷ name))
  removal :
      {ns name : Text}
      → IsK8sName ns
      → IsK8sName name
      → IsEndpoint (text "DELETE") (text "/api/v1/workflows/" ++ (ns ++ b'/' ∷ name))
  lifecycle :
      {ns name action : Text}
      → IsAction action
      → IsK8sName ns
      → IsK8sName name
      → IsEndpoint
          (text "PUT")
          ((text "/api/v1/workflows/" ++ (ns ++ b'/' ∷ name)) ++ (text "/" ++ action))
  template_creation :
      {ns : Text}
      → IsK8sName ns
      → IsEndpoint (text "POST") (text "/api/v1/workflow-templates/" ++ ns)
  cron_creation :
      {ns : Text} → IsK8sName ns → IsEndpoint (text "POST") (text "/api/v1/cron-workflows/" ++ ns)
  info : IsEndpoint (text "GET") (text "/api/v1/info")
  version : IsEndpoint (text "GET") (text "/api/v1/version")

-- The request that a service sends, and the client that sends it.
abbrev pub sent_by : WorkflowsService → Text → Text → Option Text → Sent
sent_by v method path body = record {
  client = (resolve_client v).0;
  request = record { method = method; url = v.host ++ path; body = body; header = header v };
}

-- The state after a request has been sent, before its reply is looked at.
abbrev pub requested : Text → Text → Option Text → Session → Session
requested method path body s = record {
  service = (resolve_client s.service).1;
  sent = sent_by s.service method path body ∷ s.sent;
  log = s.log;
}

module _ (net : Net) where
  -- The state after an exchange.
  abbrev pub exchanged : Text → Text → Option Text → Session → Session
  exchanged method path body s =
      (settle net method path (net.answer s.sent (sent_by s.service method path body))
        (requested method path body s)).1

-- What a method of the service does to its state.
pub data Step (net : Net) (s : Session) : Session → Type 0 where
  silent : Step net s s
  exchange :
      (method path : Text) (body : Option Text)
      → IsEndpoint method path
      → Step net s (exchanged net method path body s)

module _ (net : Net) where
  pub lift-Step :
      {A B : Type 0} (r : Result A) (f : A → Client B) (s : Session)
      → ((a : A) → r ≡ ok a → Step net s (f a s).1)
      → Step net s ((lift r >>= f) s).1
  lift-Step (ok a) f s h = h a refl
  lift-Step (err e) f s h = silent

  -- What follows a method and changes nothing.
  pub then_kept-Step :
      {A B : Type 0} (m : Client A) (f : A → Client B) (s : Session)
      → ((a : A) (t : Session) → (f a t).1 ≡ t)
      → Step net s (m s).1
      → Step net s ((m >>= f) s).1
  then_kept-Step m f s same h = go (m s) h
    where
      go : (r : Result _ × Session) → Step net s r.1 → Step net s (and_then r f).1
      go (ok a, t) k = rw (same a t) k
      go (err e, t) k = k

  pub then_lift-Step :
      {A B : Type 0} (m : Client A) (f : A → Result B) (s : Session)
      → Step net s (m s).1
      → Step net s ((m >>= λ a. lift (f a)) s).1
  then_lift-Step m f s h = then_kept-Step m (λ a. lift (f a)) s (λ a t. refl) h

  pub do_request-Step :
      (method path : Text) (body : Option RequestBody) (s : Session)
      → IsEndpoint method path
      → Step net s (do_request net method path body s).1
  unfolding do_request send
  do_request-Step method path body s h =
      lift-Step (wrapping "marshal request body: %w" [] (marshal_body net body)) _ s (λ data_ e.
        lift-Step
          (wrapping "create request: %w" [] (net.new_request method (s.service.host ++ path))) _ s
          (λ done f. exchange method path data_ h))
