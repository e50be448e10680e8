-- ===== src/Status.antt =====
-- src/ollama_queue_proxy/routes/status.py: what the proxy shows of its state.
pub mod Summary
pub mod Labels
pub mod Reader
pub mod Exposition
pub mod Page
pub mod Metrics
pub mod Counters
pub mod Accesses
pub mod Served
use ollama_queue_proxy.Prelude.{
  ℕ, ◌+◌, String, Bool, true, false, Option, none, some, List, [], ◌∷◌, Dict, length,
}
use ollama_queue_proxy.Http.{Request, ErrorResponse}
use ollama_queue_proxy.Priority.{Tier, high, normal, low}
use ollama_queue_proxy.Scope.{read}
use ollama_queue_proxy.Auth.{AuthManager, Outcome, returns, raises_type_error, require_scope}
use ollama_queue_proxy.Concurrency.{ClientState}
use ollama_queue_proxy.Routing.{Host, RoutingTable, hosts}
use ollama_queue_proxy.Gateway.{ClientStats}
use ollama_queue_proxy.Cache.{EmbeddingCache}
use ollama_queue_proxy.Queue.State.{Manager, PerTier, at, depth, tier_config}

-- The parts of `AppState` and of the configuration that are shown; `uptime` is in whole seconds.
pub record View : Type 0 where
  pub queue_manager : Manager
  pub routing_table : RoutingTable
  pub clients : Dict (Option String × ClientStats)
  pub client_states : Option (Dict ClientState)
  pub embedding_cache : Option EmbeddingCache
  pub auth_enabled : Bool
  pub allow_model_management : Bool
  pub active_keys : ℕ
  pub max_concurrent : ℕ
  pub uptime : ℕ

pub record TierStatus : Type 0 where
  pub depth : ℕ
  pub max_depth : ℕ
  pub processed : ℕ
  pub rejected : ℕ
  pub expired : ℕ

pub record HostStatus : Type 0 where
  pub name : String
  pub url : String
  pub healthy : Bool
  pub models : List String
  pub last_checked : Option ℕ
  pub requests_handled : ℕ
  pub failures : ℕ

pub record QueueStatus : Type 0 where
  pub uptime_seconds : ℕ
  pub queue : PerTier TierStatus
  pub active : ℕ
  pub max : ℕ
  pub hosts : List HostStatus
  pub clients : Dict (Option String × ClientStats)
  pub auth_enabled : Bool
  pub model_management_allowed : Bool
  pub active_keys : ℕ

pub record QueueSummary : Type 0 where
  pub queued : ℕ
  pub active : ℕ
  pub max_concurrent : ℕ
  pub hosts_healthy : ℕ
  pub hosts_total : ℕ
  pub processed : ℕ
  pub rejected : ℕ
  pub expired : ℕ
  pub uptime_seconds : ℕ

unfoldable pub tier_status : Manager → Tier → TierStatus
tier_status m t =
    let s = at m.stats t in
    record {
      depth = depth m t;
      max_depth = (tier_config m.config t).max_depth;
      processed = s.processed;
      rejected = s.rejected;
      expired = s.expired;
    }

-- `sorted` orders the models of a host.
module _ (sorted : List String → List String) where
  unfoldable pub host_status : Host → HostStatus
  host_status h = record {
    name = h.name;
    url = h.url;
    healthy = h.reachable;
    models = sorted h.installed_models;
    last_checked = h.last_checked;
    requests_handled = h.requests_handled;
    failures = h.failures;
  }

  unfoldable pub hosts_data : List Host → List HostStatus
  unfolding host_status
  hosts_data [] = []
  hosts_data (h ∷ hs) = host_status h ∷ hosts_data hs

  -- `queue_status`, past its gate.
  unfoldable pub queue_status : View → QueueStatus
  unfolding tier_status hosts_data
  queue_status v = record {
    uptime_seconds = v.uptime;
    queue = record {
      at_high = tier_status v.queue_manager high;
      at_normal = tier_status v.queue_manager normal;
      at_low = tier_status v.queue_manager low;
    };
    active = v.queue_manager.active;
    max = v.max_concurrent;
    hosts = hosts_data (hosts v.routing_table);
    clients = v.clients;
    auth_enabled = v.auth_enabled;
    model_management_allowed = v.allow_model_management;
    active_keys = v.active_keys;
  }

-- `sum(1 for h in hosts if h.reachable)`
unfoldable pub count_reachable : List Host → ℕ
count_reachable [] = 0
count_reachable (h ∷ hs) =
    let rest = count_reachable hs in elim h.reachable [ true ↦ 1 + rest | false ↦ rest ]

-- `queue_summary`, past its gate.
unfoldable pub queue_summary : View → QueueSummary
unfolding count_reachable
queue_summary v =
    let m = v.queue_manager in
    record {
      queued = depth m high + (depth m normal + depth m low);
      active = m.active;
      max_concurrent = v.max_concurrent;
      hosts_healthy = count_reachable (hosts v.routing_table);
      hosts_total = length (hosts v.routing_table);
      processed =
          (at m.stats high).processed
          + ((at m.stats normal).processed + (at m.stats low).processed);
      rejected =
          (at m.stats high).rejected + ((at m.stats normal).rejected + (at m.stats low).rejected);
      expired =
          (at m.stats high).expired + ((at m.stats normal).expired + (at m.stats low).expired);
      uptime_seconds = v.uptime;
    }

-- The answer of a route, an error answer, or an uncaught exception.
pub data Shown (A : Type 0) : Type 0 where
  shows : A → Shown A
  refused : ErrorResponse → Shown A
  crashed : Shown A

gated : {A : Type 0} → Outcome (Option ErrorResponse) → A → Shown A
gated (returns none) a = shows a
gated (returns (some e)) a = refused e
gated raises_type_error a = crashed

-- Every route of the file but the liveness probe requires `read`.
unfoldable pub show :
    {A : Type 0} → (View → A) → ℕ → Request → AuthManager → View → Shown A × AuthManager
unfolding gated
show render now r auth v =
    let (gate, auth') = require_scope now r read auth in (gated gate (render v), auth')
