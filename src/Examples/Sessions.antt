-- ===== src/Examples/Sessions.antt =====
-- A service and the calls that are made of it.
use theo_forge.Prelude.{
  ◌+◌, wrap, ◌≤◌, ◌<◌, true, text, none, some, List, [], ◌∷◌, length, ok, err, Error, cause,
  wrapping, response_too_large, api_error, ◌≡◌, refl, ◌↔◌, ◌⊎◌, arith,
}
use theo_forge.Config.Global.{new}
use theo_forge.Client.Logging.{custom}
use theo_forge.Client.Service.{WorkflowsService, new_workflows_service}
use theo_forge.Client.Transport.{Net, Response, Reader, last, chunk, at_end, read_bounded_body}
use theo_forge.Client.Requests.{do_request}
use theo_forge.Client.Operations.{create_workflow}
use theo_forge.Client.Bounded.{whole, failure, read_bounded_body_lem}
use theo_forge.Client.Endless.{Endless, IsFlowing, read_bounded_reads, read_bounded_reads-ends}
use theo_forge.Client.Calls.{Call, get, stop, create_model, version_of, all_returned, after_all}
use theo_forge.Client.Runs.{fresh, after_all-sent_bounded}
use theo_forge.Client.Answers.{IsAnswered, IsRead, do_request-ok_iff, do_request-api_error_iff}
use theo_forge.Client.Submission.{buildable_of, IsSubmitted, create_workflow_iff}
use theo_forge.Client.Quiet.{quiet}
use theo_forge.Client.Silence.{after_all-quiet}
use theo_forge.Examples.Floating.{fixed}
use theo_forge.Examples.Resources.{hello, hello_model}

-- A server that accepts everything, and decoders that always give the same value.
abbrev accepting : Net
accepting = record {
  marshal = λ body. ok (text "{}");
  unmarshal_workflow = λ body. ok hello_model;
  unmarshal_list = λ body. ok (record { items = hello_model ∷ [] });
  unmarshal_template = λ body. ok (record {
    api_version = [];
    kind = [];
    metadata = hello_model.metadata;
    spec = hello_model.spec;
  });
  unmarshal_cron = λ body. err response_too_large;
  unmarshal_info = λ body.
      ok (record { managed_namespace = []; links = []; modals_closed = []; nav_color = [] });
  unmarshal_version = λ body. err response_too_large;
  path_escape = λ s. s;
  new_request = λ method url. ok tt;
  answer = λ before sent. record {
    outcome = ok (record { status_code = 200; body = last (text "{}") none });
    latency_ms = 5;
  };
}

abbrev argo : WorkflowsService
argo = new_workflows_service (text "https://argo/") (text "secret") (text "argo")

-- A service whose logger panics at every call.
abbrev panicking : WorkflowsService
panicking = record argo { logger = some (custom (λ level msg kv. true)) }

abbrev calls : List Call
calls =
    get (text "hello") []
    ∷ stop (text "hello") (text "other")
    ∷ create_model hello_model []
    ∷ version_of
    ∷ []

after_all-sent_bounded_example : length (after_all accepting calls (fresh argo)).sent ≤ 4
after_all-sent_bounded_example = after_all-sent_bounded accepting (λ s h. refl) calls (fresh argo)

after_all-quiet_example :
    (all_returned accepting calls (fresh argo) ≡ all_returned accepting calls (fresh panicking))
    × (quiet (after_all accepting calls (fresh argo))
        ≡ quiet (after_all accepting calls (fresh panicking)))
after_all-quiet_example = after_all-quiet accepting calls (fresh argo) (fresh panicking) refl

do_request-ok_example :
    ((do_request accepting (text "GET") (text "/api/v1/info") none (fresh argo)).0 ≡ ok (text "{}"))
    ↔ ((resp : Response) × IsAnswered accepting
          (text "GET")
          (text "/api/v1/info")
          none
          (fresh argo)
          resp
        × (resp.status_code < 400)
        × IsRead resp (text "{}"))
do_request-ok_example =
    do_request-ok_iff accepting (text "GET") (text "/api/v1/info") none (fresh argo) (text "{}")

do_request-api_error_example :
    ((do_request accepting (text "GET") (text "/api/v1/info") none (fresh argo)).0
      ≡ err (api_error 404 []))
    ↔ ((resp : Response) × IsAnswered accepting
          (text "GET")
          (text "/api/v1/info")
          none
          (fresh argo)
          resp
        × (404 ≡ resp.status_code)
        × (400 ≤ 404)
        × IsRead resp [])
do_request-api_error_example =
    do_request-api_error_iff accepting (text "GET") (text "/api/v1/info") none (fresh argo) 404 []

abbrev body : Reader
body = chunk (text "ab") (last (text "cd") none)

read_bounded_body_example :
    ((length (whole body) ≤ 3)
      × (read_bounded_body body 3
          ≡ wrapping "client: read response: %w" [] (at_end (whole body) (failure body))))
    ⊎ ((3 < length (whole body))
        × ((e : Error) × (read_bounded_body body 3 ≡ err e)
            × ((cause e ≡ response_too_large)
                ⊎ ((d : Error) × (failure body ≡ some d)
                    × (length (whole body) ≡ 3 + 1)
                    × (e ≡ wrap "client: read response: %w" [] d)))))
read_bounded_body_example = read_bounded_body_lem body 3

create_workflow_example :
    ((create_workflow accepting (buildable_of fixed new hello) (fresh argo)).0 ≡ ok hello_model)
    ↔ IsSubmitted accepting fixed new hello (fresh argo) hello_model
create_workflow_example =
    create_workflow_iff accepting (λ s h. refl) fixed new hello (fresh argo) hello_model

abbrev flowing : Endless
flowing = λ k. text "a"

flowing-IsFlowing : IsFlowing flowing
flowing-IsFlowing k = omega arith

read_bounded_reads-ends_example :
    (e : Error) × (read_bounded_reads 5 flowing 3 ≡ some (err e)) × (cause e ≡ response_too_large)
read_bounded_reads-ends_example = read_bounded_reads-ends flowing 3 flowing-IsFlowing
