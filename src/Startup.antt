-- ===== src/Startup.antt =====
-- Start-up: `run` and `lifespan` of src/ollama_queue_proxy/main.py, with `startup_probe` of
-- src/ollama_queue_proxy/routing.py.
pub mod Servers
pub mod Probe
pub mod Ready
use ollama_queue_proxy.Prelude.{
  ℕ, String, Bool, true, false, not, ◌&&◌, Option, none, some, List, [], ◌∷◌, Dict, insert, lookup,
  any, keep, is_empty, str_eq, ltb, if◌then◌else◌,
}
use ollama_queue_proxy.Config.{ApiKeyConfig, AuthConfig, QueueConfig, HostConfig}
use ollama_queue_proxy.Config.Checks.{InjectionListenerConfig, Config}
use ollama_queue_proxy.Body.{KeepAliveConfig}
use ollama_queue_proxy.Auth as Auth
use ollama_queue_proxy.Queue.State as State
use ollama_queue_proxy.Routing as Routing
use ollama_queue_proxy.Routing.{Host, RoutingTable, poll_host, Strategy, hosts}
use ollama_queue_proxy.Cache.{EmbeddingCache, EmbeddingCacheConfig}
use ollama_queue_proxy.Gateway.{AppState, ClientStats}
use ollama_queue_proxy.Webhooks.{
  WebhookConfig, Address, Resolved, Verdict, accepted, refused, validate_webhook_url,
}

-- A server of `run`: the main one, or one that injects a client with its key.
pub record Server : Type 0 where
  pub host : String
  pub port : ℕ
  pub injects : Option (String × ApiKeyConfig)

-- `{k.client_id: k for k in config.auth.keys}`
unfoldable pub key_map : Dict ApiKeyConfig → List ApiKeyConfig → Dict ApiKeyConfig
key_map d [] = d
key_map d (k ∷ ks) = key_map (insert k.client_id k d) ks

abbrev pub with_server : Server → Option (List Server) → Option (List Server)
with_server s none = none
with_server s (some rest) = some (s ∷ rest)

-- The loop over the listeners; `none` is the KeyError of a client without a key.
unfoldable pub injection_servers :
    Dict ApiKeyConfig → List InjectionListenerConfig → Option (List Server)
injection_servers keys [] = some []
injection_servers keys (l ∷ ls) =
    let rest = injection_servers keys ls in
    elim (lookup l.inject_as keys) [
      | none ↦ none
      | some cfg ↦
          with_server
            (record { host = l.bind; port = l.listen_port; injects = some (l.inject_as, cfg) }) rest
    ]

-- `run`, up to `serve_all`; `host` is `proxy.host`.
unfoldable pub all_servers : String → Config → Option (List Server)
unfolding key_map injection_servers
all_servers host c =
    with_server (record { host = host; port = c.proxy.port; injects = none })
      (injection_servers (key_map [] c.auth.keys) c.client_injection.listeners)

-- The polls of `startup_probe`, each on its own state.
unfoldable pub poll_all : ℕ → (Host → Option (List String)) → Dict Host → Dict Host
unfolding poll_host
poll_all now answers [] = []
poll_all now answers ((name, h) ∷ d) = (name, poll_host now (answers h) h) ∷ poll_all now answers d

-- `startup_probe`, and `none` where it ends the process.
unfoldable pub startup_probe :
    ℕ → (Host → Option (List String)) → RoutingTable → Option RoutingTable
unfolding poll_all
startup_probe now answers t =
    let probed = record t { states = poll_all now answers t.states } in
    if is_empty (keep (λ h. h.reachable) (hosts probed)) then none else some probed

-- The settings that `lifespan` reads, past `load_config`.
pub record Settings : Type 0 where
  pub sections : Config
  pub queue : QueueConfig
  pub hosts : List HostConfig
  pub strategy : Strategy
  pub webhooks : WebhookConfig
  pub embedding_cache : EmbeddingCacheConfig
  pub keep_alive : KeepAliveConfig
  pub max_request_body_mb : ℕ
  pub host : String

-- `AppState`, with the parts that the handlers share, and how many workers are started.
pub record Deployment : Type 0 where
  pub state : AppState
  pub routing_table : RoutingTable
  pub embedding_cache : Option EmbeddingCache
  pub concurrency : Option (List ApiKeyConfig)
  pub workers : ℕ

-- What ends the process before a request is accepted.
pub data Halt : Type 0 where
  webhook_refused unreachable no_backend : Halt

pub data Started : Type 0 where
  halts : Halt → Started
  runs : Deployment → Started

-- `_warn_open_binding`
unfoldable pub warn_open_binding : Settings → Bool
warn_open_binding c = not c.sections.auth.enabled && str_eq c.host "0.0.0.0"

-- "Pre-populate client stats"
unfoldable pub client_stats : Dict ClientStats → List ApiKeyConfig → Dict ClientStats
client_stats d [] = d
client_stats d (k ∷ ks) =
    client_stats (insert k.client_id (record { processed = 0; rejected = 0 }) d) ks

abbrev pub connected_cache : EmbeddingCacheConfig → EmbeddingCache
connected_cache config = record {
  config = config;
  connected = true;
  last_error_log = 0;
  hits = [];
  misses = [];
  errors = [];
}

-- `EmbeddingCache.startup`: whether the backend answers the ping.
abbrev pub cache_startup : Bool → EmbeddingCacheConfig → Option (Option EmbeddingCache)
cache_startup pings config =
    if not config.enabled
    then some none
    else if pings
    then some (some (connected_cache config))
    else none

-- The objects that the handlers share.
unfoldable pub assemble : Settings → RoutingTable → Option EmbeddingCache → Deployment
unfolding client_stats Auth.init State.init
assemble c table cache =
    let keys = c.sections.auth.keys in
    record {
      state = record {
        shutting_down = false;
        max_request_body_mb = c.max_request_body_mb;
        keep_alive = c.keep_alive;
        auth_manager = Auth.init c.sections.auth;
        queue_manager = State.init c.queue c.sections.proxy.max_concurrent;
        client_stats = client_stats [] keys;
        next_future = 0;
      };
      routing_table = table;
      embedding_cache = cache;
      concurrency = if any (λ k. ltb 0 k.max_concurrent) keys then some keys else none;
      workers = c.sections.proxy.max_concurrent;
    }

-- The parsers of URLs and addresses, `ip_address`'s message and the resolver are those of webhooks.py.
module _ (urlparse : String → String × Option String) (ip_address : String → Option Address)
    (message : String → String) (resolve : String → Resolved) where
  -- The webhook URL is refused.
  unfoldable pub bad_webhook : WebhookConfig → Bool
  unfolding validate_webhook_url
  bad_webhook w =
      if w.enabled && not (str_eq w.url "")
      then elim (validate_webhook_url urlparse ip_address message resolve w.url w.allowed_hosts) [
        | accepted ↦ false
        | refused e ↦ true
      ]
      else false

  -- `lifespan`, up to its `yield`: `answers` is what the hosts answer to the probe.
  unfoldable pub lifespan : ℕ → (Host → Option (List String)) → Bool → Settings → Started
  unfolding bad_webhook startup_probe assemble Routing.init
  lifespan now answers pings c =
      if bad_webhook c.webhooks
      then halts webhook_refused
      else elim (startup_probe now answers (Routing.init c.strategy c.hosts)) [
        | none ↦ halts unreachable
        | some table ↦ elim (cache_startup pings c.embedding_cache) [
          | none ↦ halts no_backend
          | some cache ↦ runs (assemble c table cache)
        ]
      ]
