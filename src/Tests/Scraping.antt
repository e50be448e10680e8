-- ===== src/Tests/Scraping.antt =====
-- Pages of metrics, at concrete inputs.
use ollama_queue_proxy.Prelude.{◌≡◌, ◌↔◌, refl, none, some, List, [], ◌∷◌, codes}
use ollama_queue_proxy.Cache.{EmbeddingCache, metric_key}
use ollama_queue_proxy.Queue.State as State
use ollama_queue_proxy.Routing as Routing
use ollama_queue_proxy.Config.Env.{Codes}
use ollama_queue_proxy.Status.{View}
use ollama_queue_proxy.Status.Labels.{Family, sample_line, page_of}
use ollama_queue_proxy.Status.Reader.{read_page}
use ollama_queue_proxy.Status.Page.{all_samples}
use ollama_queue_proxy.Status.Exposition.{Lacks}
use ollama_queue_proxy.Status.Metrics.{families, metrics, split_label}
use ollama_queue_proxy.Status.Accesses.{Access, gets, sets, accesses}
use ollama_queue_proxy.Status.Counters.{parts_of, client_of, split_label-metric_key}
use ollama_queue_proxy.Status.Served.{metrics_served}
use ollama_queue_proxy.Tests.Caching.{
  backend_get, backend_setex, canonical, digest, cache, as_text, as_list,
}
use ollama_queue_proxy.Tests.Reporting.{view}

-- The page without a cache and without clients.
abbrev page : List Codes
page =
    codes "# HELP oqp_queue_depth Current number of requests waiting in queue"
    ∷ codes "# TYPE oqp_queue_depth gauge"
    ∷ codes "oqp_queue_depth{tier=\"high\"} 1"
    ∷ codes "oqp_queue_depth{tier=\"normal\"} 1"
    ∷ codes "oqp_queue_depth{tier=\"low\"} 0"
    ∷ codes "# HELP oqp_queue_processed_total Total requests dispatched from queue"
    ∷ codes "# TYPE oqp_queue_processed_total counter"
    ∷ codes "oqp_queue_processed_total{tier=\"high\"} 0"
    ∷ codes "oqp_queue_processed_total{tier=\"normal\"} 0"
    ∷ codes "oqp_queue_processed_total{tier=\"low\"} 0"
    ∷ codes "# HELP oqp_queue_rejected_total Requests rejected due to full queue"
    ∷ codes "# TYPE oqp_queue_rejected_total counter"
    ∷ codes "oqp_queue_rejected_total{tier=\"high\"} 0"
    ∷ codes "oqp_queue_rejected_total{tier=\"normal\"} 0"
    ∷ codes "oqp_queue_rejected_total{tier=\"low\"} 0"
    ∷ codes "# HELP oqp_queue_expired_total Requests dropped due to max_wait timeout"
    ∷ codes "# TYPE oqp_queue_expired_total counter"
    ∷ codes "oqp_queue_expired_total{tier=\"high\"} 0"
    ∷ codes "oqp_queue_expired_total{tier=\"normal\"} 0"
    ∷ codes "oqp_queue_expired_total{tier=\"low\"} 0"
    ∷ codes "# HELP oqp_concurrency_active Current active upstream requests"
    ∷ codes "# TYPE oqp_concurrency_active gauge"
    ∷ codes "oqp_concurrency_active 0"
    ∷ codes "# HELP oqp_host_healthy Whether the host is currently healthy (1=healthy, 0=unhealthy)"
    ∷ codes "# TYPE oqp_host_healthy gauge"
    ∷ codes "oqp_host_healthy{name=\"a\"} 0"
    ∷ codes "oqp_host_healthy{name=\"b\"} 1"
    ∷ codes "# HELP oqp_host_requests_total Total requests handled by host"
    ∷ codes "# TYPE oqp_host_requests_total counter"
    ∷ codes "oqp_host_requests_total{name=\"a\"} 0"
    ∷ codes "oqp_host_requests_total{name=\"b\"} 0"
    ∷ codes "# HELP oqp_host_failures_total Total upstream failures for host"
    ∷ codes "# TYPE oqp_host_failures_total counter"
    ∷ codes "oqp_host_failures_total{name=\"a\"} 1"
    ∷ codes "oqp_host_failures_total{name=\"b\"} 0"
    ∷ codes "# HELP oqp_host_models_installed Number of models installed on each host (/api/tags)"
    ∷ codes "# TYPE oqp_host_models_installed gauge"
    ∷ codes "oqp_host_models_installed{host=\"a\"} 0"
    ∷ codes "oqp_host_models_installed{host=\"b\"} 0"
    ∷ codes "# HELP oqp_routing_decisions_total Routing decisions by reason"
    ∷ codes "# TYPE oqp_routing_decisions_total counter"
    ∷ codes "oqp_routing_decisions_total{reason=\"model_match\"} 0"
    ∷ codes "oqp_routing_decisions_total{reason=\"round_robin\"} 0"
    ∷ codes "oqp_routing_decisions_total{reason=\"fallback\"} 0"
    ∷ codes "# HELP oqp_uptime_seconds Proxy uptime in seconds since last start"
    ∷ codes "# TYPE oqp_uptime_seconds gauge"
    ∷ codes "oqp_uptime_seconds 60"
    ∷ []

page_shown : metrics view ≡ some (page_of page)
unfolding metrics State.init Routing.mark_unhealthy Routing.init
page_shown = refl

-- A name that would end its label.
quoted_line :
    sample_line (record {
      name = codes "oqp_host_healthy";
      labels = (codes "name", codes "a\"} 1\\\n") ∷ [];
      value = 1;
    })
    ≡ codes "oqp_host_healthy{name=\"a\\\"} 1\\\\\\n\"} 1"
unfolding sample_line
quoted_line = refl

-- A request that is missed, stored, and found by another client.
abbrev asked : List Access
asked =
    gets 1 "/api/embed" as_text "nomic" (some "worker")
    ∷ sets 2 "/api/embed" as_text "nomic" (1 ∷ 2 ∷ [])
    ∷ gets 3 "/api/embed" as_list "nomic" none
    ∷ []

abbrev used : EmbeddingCache
used = (accesses codes canonical digest backend_get backend_setex asked cache []).0

abbrev view_with_cache : View
view_with_cache = record view { embedding_cache = some used }

metrics_served_example :
    (fs : List Family) × (page : Codes) × (families view_with_cache ≡ some fs)
    × (metrics view_with_cache ≡ some page)
    × (read_page page ≡ some (all_samples fs))
metrics_served_example =
    metrics_served codes canonical digest backend_get backend_setex asked cache [] view_with_cache
      refl refl refl

split_label-metric_key_example :
    (split_label (codes (metric_key (some "worker") "nomic" "/api/embed"))
      ≡ some (parts_of (some "worker") "nomic" "/api/embed"))
    ↔ (Lacks b',' (codes (client_of (some "worker"))) × Lacks b',' (codes "nomic"))
split_label-metric_key_example = split_label-metric_key (some "worker") "nomic" "/api/embed"

-- The bug: a model with a comma in its name is shown with a part of it as the endpoint.
comma_in_model :
    split_label (codes (metric_key (some "worker") "a,b" "/api/embed"))
    ≡ some (codes "worker" ∷ codes "a" ∷ codes "b,/api/embed" ∷ [])
unfolding split_label metric_key
comma_in_model = refl
