-- ===== src/Proxy/Dispatch.antt =====
-- `dispatch_request` of src/ollama_queue_proxy/proxy.py around the failover loop.
use package.text.Mathlib.Text.{find?}
use ollama_queue_proxy.Prelude.{
  ℕ, suc, String, Bool, true, false, not, ◌&&◌, ◌||◌, Option, none, some, List, [], ◌∷◌, insert,
  contains, length, starts_with, if◌then◌else◌,
}
use ollama_queue_proxy.Http.{upstream, error, json, streaming, text, ErrorResponse}
use ollama_queue_proxy.Routing.{Host, RoutingTable, hosts}
use ollama_queue_proxy.Queue.Worker.{Dispatched, returned, raised}
use ollama_queue_proxy.Proxy.{
  Upstream, Reply, Attempted, answered, exhausted, raises, attempt, model_management_paths,
  strip_response_headers, without,
}

-- Python's `part in text`.
abbrev pub has : String → String → Bool
has text_value part = elim (find? text_value part) [ none ↦ false | some i ↦ true ]

unfoldable pub is_streaming : Upstream → Bool
is_streaming u = has u.content_type "text/event-stream" || has u.content_type "application/x-ndjson"

-- `json.dumps(None)`
abbrev null_body : List ℕ
null_body = b'n' ∷ b'u' ∷ b'l' ∷ b'l' ∷ []

unfoldable pub json_answer : String → Upstream → List ℕ → Dispatched
unfolding without strip_response_headers
json_answer name u body = returned (
    upstream (record {
      kind = json;
      status_code = u.status_code;
      body = body;
      headers = insert "X-Failover-Host" (text name) (without strip_response_headers u.headers);
    }))

-- The answer to the client. `resp.json()` raises where a body that calls itself JSON is not; a
-- body of another type is dropped.
unfoldable pub respond : String → Upstream → Dispatched
unfolding is_streaming json_answer
respond name u =
    if is_streaming u
    then returned (
        upstream (record {
          kind = streaming;
          status_code = u.status_code;
          body = [];
          headers = insert "X-Failover-Host" (text name) u.headers;
        }))
    else if starts_with u.content_type "application/json"
    then elim u.content [ none ↦ raised | some body ↦ json_answer name u body ]
    else json_answer name u null_body

unfoldable pub management_disabled : String → ErrorResponse
management_disabled request_id = record {
  status_code = 403;
  error =
      "model management endpoints are disabled; set allow_model_management: true in config to enable";
  request_id = request_id;
  headers = [];
}

unfoldable pub all_hosts_failed : String → ErrorResponse
all_hosts_failed request_id = record {
  status_code = 503;
  error = "all upstream hosts failed";
  request_id = request_id;
  headers = ("X-Failover-Exhausted", text "true") ∷ [];
}

unfoldable pub conclude : String → Option Attempted → Option Dispatched
unfolding respond all_hosts_failed
conclude request_id none = none
conclude request_id (some (answered name u)) = some (respond name u)
conclude request_id (some exhausted) = some (returned (error (all_hosts_failed request_id)))
conclude request_id (some raises) = some raised

-- `dispatch_request`. The fuel is one attempt more than there are hosts.
module _ (send : ℕ → Host → Reply) (others : ℕ → RoutingTable → RoutingTable) where
  unfoldable pub dispatch_request :
      (path request_id : String) (allow_model_management : Bool) (model : Option String)
      (t : RoutingTable)
      → Option Dispatched × RoutingTable
  unfolding conclude management_disabled model_management_paths
  dispatch_request path request_id allow model t =
      if contains model_management_paths path && not allow
      then (some (returned (error (management_disabled request_id))), t)
      else (let (attempted, after) = attempt send others model (suc (length (hosts t))) 0 [] t in
          (conclude request_id attempted, after))
