-- ===== src/Gateway.antt =====
-- The way of a request through the proxy: `_enqueue_request` and `proxy_handler` of
-- src/ollama_queue_proxy/main.py, and `injection_handler` of src/ollama_queue_proxy/injection.py,
-- in a deployment without an embedding cache.
pub mod Handlers
pub mod Reply
pub mod Entitled
pub mod Refused
pub mod Identity
pub mod Cached
pub mod Compat
pub mod Listener
use Prim.Native.String.{◌++◌ as text_append}
use ollama_queue_proxy.Prelude.{
  ℕ, ◌+◌, String, Bool, true, false, not, Option, none, some, List, [], ◌∷◌, Dict, lookup, insert,
  contains, length, if◌then◌else◌, str_eq,
}
use ollama_queue_proxy.Http.{Request, ErrorResponse, number}
use ollama_queue_proxy.Priority.{Tier, tier_name}
use ollama_queue_proxy.Scope.{Scope, inference, allows}
use ollama_queue_proxy.Config.{ApiKeyConfig}
use ollama_queue_proxy.Auth.{AuthManager, scope_denied}
use ollama_queue_proxy.Body.{
  Body, body, too_large, read_body, KeepAliveConfig, Field, Loaded, inject_keep_alive,
}
use ollama_queue_proxy.Queue.State.{Manager, QueueItem}
use ollama_queue_proxy.Queue.Enqueue.{
  Enqueued, position, queue_paused, queue_full, queue_over_capacity, zero_division, enqueue,
}
use ollama_queue_proxy.Queue.Control.{retry_after}

pub record ClientStats : Type 0 where
  pub processed : ℕ
  pub rejected : ℕ

-- The parts of `AppState` that the handlers read and write. `next_future` is the identity of the
-- next future that is created.
pub record AppState : Type 0 where
  pub shutting_down : Bool
  pub max_request_body_mb : ℕ
  pub keep_alive : KeepAliveConfig
  pub auth_manager : AuthManager
  pub queue_manager : Manager
  pub client_stats : Dict ClientStats
  pub next_future : ℕ

pub metadata_fast_path : List String
metadata_fast_path = "/api/tags" ∷ "/api/version" ∷ "/api/ps" ∷ "/api/show" ∷ "/" ∷ []

keep_alive_paths : List String
keep_alive_paths = "/api/generate" ∷ "/api/chat" ∷ "/api/embed" ∷ "/api/embeddings" ∷ []

-- What a handler comes to before its first wait for upstream: an answer, an uncaught exception, a
-- dispatch past the queue, or an item in the queue with its position; the last two with the body
-- to send.
pub data Intake : Type 0 where
  answered : ErrorResponse → Intake
  crashed : Intake
  forwarded : String → List ℕ → Intake
  queued : ℕ → QueueItem → String → List ℕ → Intake

-- `client_stats.setdefault(client_id, ...)`
abbrev stats_of : String → Dict ClientStats → ClientStats
stats_of c d = elim (lookup c d) [ none ↦ record { processed = 0; rejected = 0 } | some s ↦ s ]

-- `if client_id: ... cs["rejected"] + 1`
count_rejected : Option String → Dict ClientStats → Dict ClientStats
count_rejected none d = d
count_rejected (some c) d =
    if str_eq c ""
    then d
    else insert c (record (stats_of c d) { rejected = (stats_of c d).rejected + 1 }) d

-- `if client_id: ... cs["processed"] + 1`
unfoldable pub count_processed : Option String → Dict ClientStats → Dict ClientStats
count_processed none d = d
count_processed (some c) d =
    if str_eq c ""
    then d
    else insert c (record (stats_of c d) { processed = (stats_of c d).processed + 1 }) d

queue_error : Request → ℕ → String → ℕ → ErrorResponse
queue_error r status_code error seconds = record {
  status_code = status_code;
  error = error;
  request_id = r.request_id;
  headers = ("Retry-After", number seconds) ∷ [];
}

paused_error : Request → Tier → ErrorResponse
unfolding tier_name
paused_error r t = record {
  status_code = 503;
  error = text_append (text_append "queue tier '" (tier_name t)) "' is paused";
  request_id = r.request_id;
  headers = [];
}

-- The handling of what `enqueue` returns or raises; the state is the one `enqueue` leaves.
pub after_enqueue :
    Request → Option String → QueueItem → String → List ℕ → Enqueued → AppState → Intake × AppState
unfolding count_rejected queue_error paused_error
after_enqueue r client item path bytes (position n) s = (queued n item path bytes, s)
after_enqueue r client item path bytes (queue_full t code) s = (
  answered (queue_error r code "queue full" (retry_after t s.queue_manager)),
  record s { client_stats = count_rejected client s.client_stats },
)
after_enqueue r client item path bytes (queue_over_capacity t code) s = (
  answered (queue_error r code "queue over capacity (bytes)" (retry_after t s.queue_manager)),
  record s { client_stats = count_rejected client s.client_stats },
)
after_enqueue r client item path bytes (queue_paused t) s = (answered (paused_error r t), s)
after_enqueue r client item path bytes zero_division s = (crashed, s)

pub item_for : ℕ → Request → Tier → List ℕ → AppState → QueueItem
item_for now r tier bytes s = record {
  tier = tier;
  enqueue_time = now;
  request_id = r.request_id;
  future = s.next_future;
  position = 0;
  nbytes = length bytes;
}

unfoldable pub submit :
    Request → Option String → QueueItem → String → List ℕ → AppState → Intake × AppState
unfolding after_enqueue
submit r client item path bytes s =
    let (outcome, manager) = enqueue item s.queue_manager in
    after_enqueue r client item path bytes outcome
      (record s { queue_manager = manager; next_future = s.next_future + 1 })

pub path_of : Request → Option String → String
path_of r none = r.path
path_of r (some p) = p

-- `key_cfg is None or key_cfg.allows("inference")`
pub may_infer : Option ApiKeyConfig → Bool
may_infer none = true
may_infer (some cfg) = allows cfg.scope inference

-- The body is a stream of chunks; `int`, `loads` and `dumps` are Python's.
module _ (int : String → Option ℕ) (loads : List ℕ → Loaded) (dumps : Dict Field → List ℕ) where
  -- `_enqueue_request` past `read_body`.
  pub with_body : ℕ → Request → Option String → Tier → String → Body → AppState → Intake × AppState
  unfolding submit item_for metadata_fast_path keep_alive_paths
  with_body now r client tier path (too_large e) s = (answered e, s)
  with_body now r client tier path (body bytes) s =
      if contains metadata_fast_path path
      then (forwarded path bytes, s)
      else (let sent =
            if contains keep_alive_paths path
            then inject_keep_alive loads dumps s.keep_alive s.max_request_body_mb bytes
            else bytes in
          submit r client (item_for now r tier sent s) path sent s)

  -- `_enqueue_request`, up to `await future`.
  unfoldable pub enqueue_request :
      ℕ
      → Request
      → List (List ℕ)
      → Option String
      → Tier
      → Option String
      → Option ApiKeyConfig
      → AppState
      → Intake × AppState
  unfolding with_body path_of may_infer
  enqueue_request now r chunks client tier path_override key_cfg s =
      if may_infer key_cfg
      then with_body now r client tier (path_of r path_override)
          (read_body int s.max_request_body_mb r chunks) s
      else (answered (scope_denied r inference), s)
