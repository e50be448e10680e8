-- ===== src/Proxy/Forward.antt =====
-- What `dispatch_request` of src/ollama_queue_proxy/proxy.py sends to a host: the request of the caller
-- with another URL and other headers. The HTTP client is a parameter that reads all of it but
-- its timeout.
pub mod Sends
use Prim.Native.String.{◌++◌ as text_append}
use ollama_queue_proxy.Prelude.{
  ℕ, String, Bool, Option, none, some, List, [], Dict, is_empty, str_eq, if◌then◌else◌,
}
use ollama_queue_proxy.Http.{Request}
use ollama_queue_proxy.Routing.{Host, RoutingTable}
use ollama_queue_proxy.Queue.Worker.{Dispatched}
use ollama_queue_proxy.Proxy.{Reply, forward_headers}
use ollama_queue_proxy.Proxy.Dispatch.{dispatch_request}

-- The arguments of `client.request`.
pub record Outgoing : Type 0 where
  pub method : String
  pub url : String
  pub headers : Dict String
  pub content : Option (List ℕ)

abbrev pub url_for : (base path query : String) → String
url_for base path query =
    if str_eq query ""
    then text_append base path
    else text_append (text_append base path) (text_append "?" query)

-- `body or None`
abbrev pub content_of : List ℕ → Option (List ℕ)
content_of body = if is_empty body then none else some body

-- `path_override if path_override is not None else request.url.path`
abbrev pub path_to : Option String → Request → String
path_to none r = r.path
path_to (some path) r = path

unfoldable pub outgoing : Option String → Request → Option String → List ℕ → Host → Outgoing
outgoing path_override r client_id body host = record {
  method = r.method;
  url = url_for host.url (path_to path_override r) r.query;
  headers = forward_headers client_id r.headers;
  content = content_of body;
}

-- `dispatch_request` with what it makes of its arguments.
module _ (client : ℕ → Outgoing → Reply) (others : ℕ → RoutingTable → RoutingTable) where
  unfoldable pub forward :
      (path_override : Option String) (r : Request) (client_id : Option String)
      (allow_model_management : Bool) (model : Option String) (body : List ℕ) (t : RoutingTable)
      → Option Dispatched × RoutingTable
  unfolding outgoing
  forward path_override r client_id allow model body t =
      dispatch_request (λ n host. client n (outgoing path_override r client_id body host)) others
        (path_to path_override r) r.request_id allow model t
