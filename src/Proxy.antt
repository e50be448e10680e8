-- ===== src/Proxy.antt =====
-- src/ollama_queue_proxy/proxy.py: forwarding a request to a host, with failover.
pub mod Dispatch
pub mod Names
pub mod Headers
pub mod Failover
pub mod Reaches
pub mod Changes
pub mod Forward
use ollama_queue_proxy.Prelude.{
  ℕ, zero, suc, ◌+◌, String, Bool, true, false, not, ◌&&◌, Option, none, some, List, [], ◌∷◌, Dict,
  lookup, insert, contains, length, str_eq, starts_with, ◌==◌, if◌then◌else◌,
}
use ollama_queue_proxy.Http.{
  Answer, upstream, error, Response, Kind, json, streaming, HeaderValue, text, ErrorResponse,
}
use ollama_queue_proxy.Routing.{Host, RoutingTable, hosts, update, pick, mark_unhealthy, invalidate}

pub model_management_paths : List String
model_management_paths =
    "/api/pull" ∷ "/api/push" ∷ "/api/delete" ∷ "/api/create" ∷ "/api/copy" ∷ []

unfoldable pub strip_request_headers : List String
strip_request_headers =
    "x-queue-priority" ∷ "authorization" ∷ "host" ∷ "content-length" ∷ "transfer-encoding" ∷ []

pub strip_response_headers : List String
strip_response_headers = "content-length" ∷ "transfer-encoding" ∷ []

-- The headers that are passed on, but those of `strip`; the names are in lower case.
pub without {ℓ} : {V : Type ℓ} → List String → Dict V → Dict V
without strip [] = []
without strip ((k, v) ∷ rest) =
    let kept = without strip rest in if contains strip k then kept else (k, v) ∷ kept

-- `if client_id:`
abbrev pub is_some_text : Option String → Bool
is_some_text none = false
is_some_text (some s) = not (str_eq s "")

pub set_client : Option String → Dict String → Dict String
set_client none d = d
set_client (some s) d = if str_eq s "" then d else insert "x-client-id" s d

unfoldable pub forward_headers : Option String → Dict String → Dict String
unfolding without set_client strip_request_headers
forward_headers client_id headers = set_client client_id (without strip_request_headers headers)

-- An answer from a host, as far as the proxy reads it: `content` is the body as `resp.json()`
-- returns it, if it is JSON, and `says_not_found` is the test on its `error` text.
pub record Upstream : Type 0 where
  pub status_code : ℕ
  pub content_type : String
  pub headers : Dict HeaderValue
  pub content : Option (List ℕ)
  pub says_not_found : Bool

-- How `client.request` ends: with an answer, with a ConnectError, TimeoutException or
-- HTTPStatusError, or with any other exception.
pub data Reply : Type 0 where
  responds : Upstream → Reply
  connection_failure other_failure : Reply

-- How `dispatch_request` ends, before the answer is built. `raises` is an exception for the caller.
pub data Attempted : Type 0 where
  answered : String → Upstream → Attempted
  exhausted raises : Attempted

unfoldable pub handled : String → RoutingTable → RoutingTable
handled = update (λ h. record h { requests_handled = h.requests_handled + 1 })

-- The model that upstream does not know is taken off the host's list.
unfoldable pub after_answer : Option String → String → Upstream → RoutingTable → RoutingTable
unfolding handled
after_answer model name u t =
    let counted = handled name t in
    elim model [
      | none ↦ counted
      | some m ↦
          if u.status_code == 404 && not (str_eq m "") && u.says_not_found
          then invalidate name m counted
          else counted
    ]

-- The loop of `dispatch_request`. `send n` is what the n-th request to a host comes to, and
-- `others n` is what other tasks do to the table while it is awaited. `none` means that the fuel
-- ran out.
module _ (send : ℕ → Host → Reply) (others : ℕ → RoutingTable → RoutingTable)
    (model : Option String) where
  pub attempt : ℕ → ℕ → List String → RoutingTable → Option Attempted × RoutingTable
  attempt zero n attempted t = (none, t)
  attempt (suc fuel) n attempted t =
      let (picked, t1) = pick model t in
      elim picked [
        | none ↦ (some exhausted, t1)
        | some host ↦
            (let failed =
                attempt fuel (n + 1) (host.name ∷ attempted)
                  (mark_unhealthy host.name (others n t1)) in
              if contains attempted host.name then (some exhausted, t1) else elim (send n host) [
                | responds u ↦
                    (some (answered host.name u), after_answer model host.name u (others n t1))
                | connection_failure ↦ failed
                | other_failure ↦ (some raises, others n t1)
              ])
      ]
