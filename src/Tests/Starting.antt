-- ===== src/Tests/Starting.antt =====
-- The start of the proxy, and its dashboard, at concrete inputs.
use ollama_queue_proxy.Prelude.{
  ◌≡◌, ◌↔◌, ◌⊎◌, refl, Bool, true, false, String, Option, none, some, List, [], ◌∷◌, All, arith,
  str_eq, if◌then◌else◌,
}
use ollama_queue_proxy.Scope.{read, allows}
use ollama_queue_proxy.Config.{ApiKeyConfig}
use ollama_queue_proxy.Config.Constraints.{Distinct}
use ollama_queue_proxy.Auth.{returns, key, authenticate}
use ollama_queue_proxy.Routing as Routing
use ollama_queue_proxy.Routing.{Host, RoutingTable, model_aware, hosts}
use ollama_queue_proxy.Routing.Total.{Weighs}
use ollama_queue_proxy.Startup.{
  Server, all_servers, startup_probe, Settings, Deployment, halts, runs, no_backend, lifespan,
  bad_webhook, assemble, connected_cache,
}
use ollama_queue_proxy.Startup.Servers.{Serve, server_ports, all_servers_total}
use ollama_queue_proxy.Startup.Ready.{Ready, lifespan-Ready}
use ollama_queue_proxy.Dashboard.{not_found, dashboard}
use ollama_queue_proxy.Dashboard.Shown.{is_page, dashboard_exact}
use ollama_queue_proxy.Tests.Access.{manager}
use ollama_queue_proxy.Tests.Configuring.{two_listeners, constraints_hold}
use ollama_queue_proxy.Tests.Data.{queue_config, fast_host, slow_host, worker_request}
use ollama_queue_proxy.Tests.Reporting.{urlparse, ip_address, message, resolve}

all_servers_total_example :
    (main : Server) × (servers : List Server) × (all_servers "0.0.0.0" two_listeners
      ≡ some (main ∷ servers))
    × (main.host ≡ "0.0.0.0")
    × (main.port ≡ 11434)
    × (main.injects ≡ none)
    × Serve two_listeners.auth.keys two_listeners.client_injection.listeners servers
    × Distinct (server_ports (main ∷ servers))
all_servers_total_example = all_servers_total "0.0.0.0" two_listeners constraints_hold

abbrev two_hosts : RoutingTable
unfolding Routing.init
two_hosts = Routing.init model_aware (fast_host ∷ slow_host ∷ [])

-- Only the slow host answers.
abbrev slow_answers : Host → Option (List String)
slow_answers h = if str_eq h.name "b" then some ("llama3" ∷ []) else none

both_weigh : All Weighs (hosts two_hosts)
unfolding two_hosts
both_weigh = omega arith

abbrev settings : Settings
settings = record {
  sections = two_listeners;
  queue = queue_config;
  hosts = fast_host ∷ slow_host ∷ [];
  strategy = model_aware;
  webhooks = record {
    enabled = true;
    url = "https://hooks.example.com/x";
    events = [];
    allowed_hosts = [];
  };
  embedding_cache = record {
    enabled = true;
    ttl = 60;
    max_entry_bytes = 1000;
    key_prefix = "oqp:";
  };
  keep_alive = record { default = "5m"; override = false };
  max_request_body_mb = 50;
  host = "127.0.0.1";
}

abbrev probed : RoutingTable
unfolding startup_probe
probed = elim (startup_probe 7 slow_answers two_hosts) [ none ↦ two_hosts | some t ↦ t ]

deployment : Deployment
unfolding assemble
deployment = assemble settings probed (some (connected_cache settings.embedding_cache))

starts : lifespan urlparse ip_address message resolve 7 slow_answers true settings ≡ runs deployment
unfolding lifespan deployment
starts = refl

no_backend_halts :
    lifespan urlparse ip_address message resolve 7 slow_answers false settings ≡ halts no_backend
unfolding lifespan
no_backend_halts = refl

lifespan-Ready_example :
    (bad_webhook urlparse ip_address message resolve settings.webhooks ≡ false)
    × Ready 7 slow_answers settings (some "llama3") deployment
unfolding Routing.init two_hosts
lifespan-Ready_example =
    lifespan-Ready urlparse ip_address message resolve 7 slow_answers true settings (some "llama3")
      deployment both_weigh starts

dashboard_exact_example :
    ((is_page
          (dashboard
            (record { enabled = true; refresh_seconds = 5 })
            "n"
            5
            worker_request
            manager).0
        ≡ true)
      ↔ ((◌≡◌ {A = Bool} true true)
          × ((manager.config.enabled ≡ false)
              ⊎ ((cfg : ApiKeyConfig) × ((authenticate 5 worker_request manager).0
                    ≡ returns (key cfg))
                  × (allows cfg.scope read ≡ true)))))
    × ((◌≡◌ {A = Bool} true true)
        ⊎ (dashboard (record { enabled = true; refresh_seconds = 5 }) "n" 5 worker_request manager
            ≡ (not_found, manager)))
dashboard_exact_example =
    dashboard_exact (record { enabled = true; refresh_seconds = 5 }) "n" 5 worker_request manager
