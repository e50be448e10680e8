-- ===== src/Middleware.antt =====
-- `RequestContextMiddleware` of src/ollama_queue_proxy/middleware.py: the identity of a request.
-- Starlette keeps the names of an answer's headers in lower case.
pub mod Named
pub mod Ids
use ollama_queue_proxy.Prelude.{String, Option, none, some, Dict, insert, str_eq, if◌then◌else◌}
use ollama_queue_proxy.Http.{
  Request, header, HeaderValue, text, ErrorResponse, Response, Answer, upstream, error,
}

-- What the caller sends, or what `uuid` makes.
unfoldable pub request_id_of : String → Request → String
unfolding header
request_id_of fresh r = elim (header r "x-request-id") [
  | none ↦ fresh
  | some id ↦ if str_eq id "" then fresh else id
]

-- `request.state.request_id = request_id`
unfoldable pub identified : String → Request → Request
unfolding request_id_of
identified fresh r = record r { request_id = request_id_of fresh r }

unfoldable pub set_request_id : String → Answer → Answer
set_request_id id (upstream a) =
    upstream (record a { headers = insert "x-request-id" (text id) a.headers })
set_request_id id (error e) =
    error (record e { headers = insert "x-request-id" (text id) e.headers })

-- `dispatch`
unfoldable pub request_context : String → (call_next : Request → Answer) → Request → Answer
unfolding identified set_request_id
request_context fresh call_next r =
    set_request_id (request_id_of fresh r) (call_next (identified fresh r))
