-- ===== src/Middleware/Named.antt =====
-- Where an answer names its request, for the answers of a dispatch and of a request that has waited.
use ollama_queue_proxy.Prelude.{
  ℕ, ◌≡◌, refl, String, Bool, not, ◌&&◌, Option, none, some, List, lookup, lookup-insert_self,
  contains, starts_with, length, suc, [], Bool-cases, Option-cases, inl, inr,
}
use ollama_queue_proxy.Http.{Request, text, Answer, upstream, error}
use ollama_queue_proxy.Routing.{Host, RoutingTable, hosts}
use ollama_queue_proxy.Queue.State.{
  QueueItem, QueueError, request_expired, queue_flushed, dispatch_error, FutureState, pending,
  result, exception,
}
use ollama_queue_proxy.Queue.Worker.{Dispatched, returned, raised}
use ollama_queue_proxy.Proxy.{
  Upstream, Reply, Attempted, answered, exhausted, raises, attempt, model_management_paths,
}
use ollama_queue_proxy.Proxy.Dispatch.{
  is_streaming, json_answer, respond, management_disabled, all_hosts_failed, conclude,
  dispatch_request,
}
use ollama_queue_proxy.Proxy.Forward.{Outgoing, path_to, outgoing, forward}
use ollama_queue_proxy.Gateway.{AppState}
use ollama_queue_proxy.Gateway.Reply.{reply, failed, unavailable, with_headers}
use ollama_queue_proxy.Middleware.{set_request_id}

-- An error names the request in its body.
abbrev Names : String → Answer → Type 0
Names id (upstream a) = Unit
Names id (error e) = e.request_id ≡ id

-- What is sent names it in its header, and an error in its body too.
abbrev pub IsNamed : String → Answer → Type 0
IsNamed id (upstream a) = lookup "x-request-id" a.headers ≡ some (text id)
IsNamed id (error e) = (lookup "x-request-id" e.headers ≡ some (text id)) × (e.request_id ≡ id)

pub set_request_id-IsNamed :
    (id : String) (a : Answer) → Names id a → IsNamed id (set_request_id id a)
unfolding set_request_id
set_request_id-IsNamed id (upstream a) n = lookup-insert_self "x-request-id" (text id) a.headers
set_request_id-IsNamed id (error e) n = (lookup-insert_self "x-request-id" (text id) e.headers, n)

-- What a dispatch returns names the request; an exception is no answer.
abbrev NamesDispatched : String → Option Dispatched → Type 0
NamesDispatched id none = Unit
NamesDispatched id (some raised) = Unit
NamesDispatched id (some (returned a)) = Names id a

respond-NamesDispatched :
    (id name : String) (u : Upstream) → NamesDispatched id (some (respond name u))
unfolding respond json_answer
respond-NamesDispatched id name u = elim (Bool-cases (is_streaming u)) [
  | inl s ↦ rw (s, respond) tt
  | inr s ↦ elim (Bool-cases (starts_with u.content_type "application/json")) [
    | inr j ↦ rw (s, j, respond) tt
    | inl j ↦ elim (Option-cases u.content) [
      | inl c ↦ rw (s, j, c, respond) tt
      | inr (body, c) ↦ rw (s, j, c, respond) tt
    ]
  ]
]

conclude-NamesDispatched : (id : String) (o : Option Attempted) → NamesDispatched id (conclude id o)
unfolding conclude all_hosts_failed
conclude-NamesDispatched id none = tt
conclude-NamesDispatched id (some (answered name u)) = respond-NamesDispatched id name u
conclude-NamesDispatched id (some exhausted) = refl
conclude-NamesDispatched id (some raises) = tt

forward-NamesDispatched :
    (client : ℕ → Outgoing → Reply) (others : ℕ → RoutingTable → RoutingTable)
    (path : Option String) (q : Request) (client_id : Option String) (allow : Bool)
    (model : Option String) (body : List ℕ) (t : RoutingTable)
    → NamesDispatched q.request_id (forward client others path q client_id allow model body t).0
unfolding forward dispatch_request management_disabled
forward-NamesDispatched client others path q client_id allow model body t =
    let send : ℕ → Host → Reply = λ n host. client n (outgoing path q client_id body host) in
    let attempted = (attempt send others model (suc (length (hosts t))) 0 [] t).0 in
    elim (Bool-cases (contains model_management_paths (path_to path q) && not allow)) [
      | inl disabled ↦ rw disabled refl
      | inr permitted ↦ rw permitted (conclude-NamesDispatched q.request_id attempted)
    ]

-- What is sent of what a dispatch returns.
abbrev pub IsSent : String → Option Dispatched → Type 0
IsSent id none = Unit
IsSent id (some raised) = Unit
IsSent id (some (returned a)) = IsNamed id (set_request_id id a)

NamesDispatched-IsSent : (id : String) (d : Option Dispatched) → NamesDispatched id d → IsSent id d
NamesDispatched-IsSent id none n = tt
NamesDispatched-IsSent id (some raised) n = tt
NamesDispatched-IsSent id (some (returned a)) n = set_request_id-IsNamed id a n

-- A dispatch by the handler itself.
pub forward-IsSent :
    (client : ℕ → Outgoing → Reply) (others : ℕ → RoutingTable → RoutingTable)
    (path : Option String) (q : Request) (client_id : Option String) (allow : Bool)
    (model : Option String) (body : List ℕ) (t : RoutingTable)
    → IsSent q.request_id (forward client others path q client_id allow model body t).0
forward-IsSent client others path q client_id allow model body t =
    NamesDispatched-IsSent q.request_id _
      (forward-NamesDispatched client others path q client_id allow model body t)

-- The outcome that a worker gives a future that waits for a dispatch.
abbrev pub outcome_of : Option Dispatched → FutureState
outcome_of none = pending
outcome_of (some raised) = exception dispatch_error
outcome_of (some (returned a)) = result a

abbrev pub IsReplied : String → Option Answer → Type 0
IsReplied id none = Unit
IsReplied id (some a) = IsNamed id (set_request_id id a)

request_id-failed : (q : Request) (x : QueueError) → (failed q x).request_id ≡ q.request_id
unfolding failed unavailable
request_id-failed q request_expired = refl
request_id-failed q queue_flushed = refl
request_id-failed q dispatch_error = refl

with_headers-Names :
    (id : String) (wait_ms position : ℕ) (a : Answer)
    → Names id a
    → Names id (with_headers wait_ms position a)
unfolding with_headers
with_headers-Names id wait_ms position (upstream r) n = tt
with_headers-Names id wait_ms position (error e) n = n

-- An exception of the queue.
pub reply-IsNamed :
    (later : ℕ) (q : Request) (client : Option String) (n : ℕ) (item : QueueItem) (x : QueueError)
    (s : AppState)
    → (a : Answer) × ((reply later q client n item (exception x) s).0 ≡ some a)
      × IsNamed q.request_id (set_request_id q.request_id a)
unfolding reply
reply-IsNamed later q client n item x s = (
  error (failed q x),
  refl,
  set_request_id-IsNamed q.request_id (error (failed q x)) (request_id-failed q x),
)

reply-IsReplied :
    (later : ℕ) (q : Request) (client : Option String) (n : ℕ) (item : QueueItem) (s : AppState)
    (d : Option Dispatched)
    → NamesDispatched q.request_id d
    → IsReplied q.request_id (reply later q client n item (outcome_of d) s).0
unfolding reply
reply-IsReplied later q client n item s none h = tt
reply-IsReplied later q client n item s (some raised) h =
    set_request_id-IsNamed q.request_id (error (failed q dispatch_error))
      (request_id-failed q dispatch_error)
reply-IsReplied later q client n item s (some (returned a)) h =
    set_request_id-IsNamed q.request_id _ (with_headers-Names q.request_id _ n a h)

-- A dispatch by a worker.
pub forward-IsReplied :
    (http : ℕ → Outgoing → Reply) (others : ℕ → RoutingTable → RoutingTable) (path : Option String)
    (q : Request) (client : Option String) (allow : Bool) (model : Option String) (body : List ℕ)
    (t : RoutingTable) (later n : ℕ) (item : QueueItem) (s : AppState)
    → IsReplied q.request_id
        (reply later q client n item
          (outcome_of (forward http others path q client allow model body t).0)
          s).0
forward-IsReplied http others path q client allow model body t later n item s =
    reply-IsReplied later q client n item s _
      (forward-NamesDispatched http others path q client allow model body t)
