-- ===== src/Middleware/Ids.antt =====
-- The identity that a request has on its way, and in what it is answered.
use ollama_queue_proxy.Prelude.{ℕ, ◌≡◌, String, Bool, Option, some}
use ollama_queue_proxy.Http.{Request, Answer, error}
use ollama_queue_proxy.Routing.{RoutingTable}
use ollama_queue_proxy.Proxy.{Reply}
use ollama_queue_proxy.Proxy.Forward.{Outgoing, forward}
use ollama_queue_proxy.Queue.State.{QueueError, exception}
use ollama_queue_proxy.Gateway.{AppState, Intake, answered, crashed, forwarded, queued}
use ollama_queue_proxy.Gateway.Reply.{reply}
use ollama_queue_proxy.Middleware.{set_request_id}
use ollama_queue_proxy.Middleware.Named.{IsNamed, IsSent, IsReplied, outcome_of}

-- There is no exception in the handler, and an error that is answered at once names the request. Where
-- the handler dispatches the request itself, so does what the dispatch returns. The item of one that
-- waits names it, and so do the answers to whatever error it comes to in the queue, and to whatever
-- its dispatch comes to.
abbrev pub Follows : String → Request → Intake → Type 0
Follows id q (answered e) = IsNamed id (set_request_id id (error e))
Follows id q crashed = ⊥
Follows id q (forwarded path b) =
    (http : ℕ → Outgoing → Reply) (others : ℕ → RoutingTable → RoutingTable)
    (client : Option String) (allow : Bool) (model : Option String) (t : RoutingTable)
    → IsSent id (forward http others (some path) q client allow model b t).0
Follows id q (queued n item path b) =
    (item.request_id ≡ id)
    × ((later : ℕ) (client : Option String) (x : QueueError) (s : AppState)
        → (a : Answer) × ((reply later q client n item (exception x) s).0 ≡ some a)
          × IsNamed id (set_request_id id a))
    × ((http : ℕ → Outgoing → Reply) (others : ℕ → RoutingTable → RoutingTable)
          (client : Option String) (allow : Bool) (model : Option String) (t : RoutingTable)
          (later : ℕ) (s : AppState)
        → IsReplied id
            (reply later q client n item
              (outcome_of (forward http others (some path) q client allow model b t).0) s).0)
