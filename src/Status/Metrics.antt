-- ===== src/Status/Metrics.antt =====
-- `metrics` of src/ollama_queue_proxy/routes/status.py: the page, metric by metric.
use ollama_queue_proxy.Prelude.{
  ℕ, String, true, false, Option, none, some, List, [], ◌∷◌, ◌++◌, Dict, lookup, codes, length,
  ◌==◌, if◌then◌else◌,
}
use ollama_queue_proxy.Priority.{Tier, high, normal, low}
use ollama_queue_proxy.Concurrency.{ClientState}
use ollama_queue_proxy.Routing.{Host, hosts}
use ollama_queue_proxy.Cache.{EmbeddingCache}
use ollama_queue_proxy.Queue.State.{at, depth}
use ollama_queue_proxy.Config.Env.{Codes}
use ollama_queue_proxy.Status.{View}
use ollama_queue_proxy.Status.Labels.{Family, all_lines, page_of}

abbrev Series : Type 0
Series = List (List Codes × ℕ)

abbrev family : String → String → String → List Codes → Series → Family
family name help kind labels series = record {
  name = codes name;
  help = codes help;
  kind = codes kind;
  labels = labels;
  series = series;
}

abbrev one : ℕ → Series
one n = ([], n) ∷ []

abbrev by_tier : (Tier → ℕ) → Series
by_tier f =
    (codes "high" ∷ [], f high) ∷ (codes "normal" ∷ [], f normal) ∷ (codes "low" ∷ [], f low) ∷ []

abbrev pub by_host : (Host → ℕ) → List Host → Series
by_host f [] = []
by_host f (h ∷ hs) = (codes h.name ∷ [], f h) ∷ by_host f hs

abbrev pub by_key {ℓ} : {A : Type ℓ} → (A → ℕ) → Dict A → Series
by_key f [] = []
by_key f ((k, a) ∷ d) = (codes k ∷ [], f a) ∷ by_key f d

abbrev is_up : Host → ℕ
is_up h = elim h.reachable [ true ↦ 1 | false ↦ 0 ]

-- The parts before and after the first comma.
unfoldable pub split_once : Codes → Option (Codes × Codes)
split_once [] = none
split_once (c ∷ s) =
    let later : Option (Codes × Codes) = elim (split_once s) [
      | none ↦ none
      | some (a, b) ↦ some (c ∷ a, b)
    ] in
    if c == b',' then some ([], s) else later

-- `client_id, model, endpoint = label.split(",", 2)`, and `none` for its ValueError.
unfoldable pub split_label : Codes → Option (List Codes)
unfolding split_once
split_label label = elim (split_once label) [
  | none ↦ none
  | some (client_id, rest) ↦ elim (split_once rest) [
    | none ↦ none
    | some (model, endpoint) ↦ some (client_id ∷ model ∷ endpoint ∷ [])
  ]
]

abbrev pub with_series : Option (List Codes) → ℕ → Option Series → Option Series
with_series none n later = none
with_series (some values) n none = none
with_series (some values) n (some later) = some ((values, n) ∷ later)

-- The loop over `cache_hits.items()`, and over `cache_misses.items()`.
unfoldable pub counted : Dict ℕ → Option Series
unfolding split_label
counted [] = some []
counted ((label, n) ∷ d) = with_series (split_label (codes label)) n (counted d)

-- Zero for the labels of misses that are no hits.
unfoldable pub zeros : Dict ℕ → Dict ℕ → Option Series
unfolding split_label
zeros hits [] = some []
zeros hits ((label, n) ∷ misses) =
    let later = zeros hits misses in
    let here = with_series (split_label (codes label)) 0 later in
    elim (lookup label hits) [ none ↦ here | some m ↦ later ]

abbrev pub both : Option Series → Option Series → Option Series
both none b = none
both (some a) none = none
both (some a) (some b) = some (a ++ b)

unfoldable pub cache_families : Option Series → Option Series → Dict ℕ → Option (List Family)
cache_families none missed errors = none
cache_families (some hit) none errors = none
cache_families (some hit) (some missed) errors = some (
    family "oqp_embedding_cache_hits_total" "Embedding cache hits" "counter"
      (codes "client" ∷ codes "model" ∷ codes "endpoint" ∷ []) (hit)
    ∷ family "oqp_embedding_cache_misses_total" "Embedding cache misses" "counter"
        (codes "client" ∷ codes "model" ∷ codes "endpoint" ∷ []) (missed)
    ∷ family "oqp_embedding_cache_errors_total" "Embedding cache RESP errors by kind" "counter"
        (codes "kind" ∷ []) (by_key (λ n. n) errors)
    ∷ [])

unfoldable pub client_families : Option (Dict ClientState) → List Family
client_families none = []
client_families (some states) =
    family "oqp_client_inflight" "Current in-flight requests per client" "gauge"
      (codes "client_id" ∷ []) (by_key (λ (s : ClientState). s.inflight) states)
    ∷ family "oqp_client_cap_waiting" "Requests waiting on per-client concurrency cap" "gauge"
        (codes "client_id" ∷ []) (by_key (λ (s : ClientState). s.cap_waiting) states)
    ∷ []

-- The metrics of the queue and of the hosts.
unfoldable pub queue_families : View → List Family
queue_families v =
    let m = v.queue_manager in
    let hs = hosts v.routing_table in
    family "oqp_queue_depth" "Current number of requests waiting in queue" "gauge"
      (codes "tier" ∷ []) (by_tier (depth m))
    ∷ family "oqp_queue_processed_total" "Total requests dispatched from queue" "counter"
        (codes "tier" ∷ []) (by_tier (λ t. (at m.stats t).processed))
    ∷ family "oqp_queue_rejected_total" "Requests rejected due to full queue" "counter"
        (codes "tier" ∷ []) (by_tier (λ t. (at m.stats t).rejected))
    ∷ family "oqp_queue_expired_total" "Requests dropped due to max_wait timeout" "counter"
        (codes "tier" ∷ []) (by_tier (λ t. (at m.stats t).expired))
    ∷ family "oqp_concurrency_active" "Current active upstream requests" "gauge" ([]) (one m.active)
    ∷ family "oqp_host_healthy" "Whether the host is currently healthy (1=healthy, 0=unhealthy)"
        "gauge" (codes "name" ∷ []) (by_host is_up hs)
    ∷ family "oqp_host_requests_total" "Total requests handled by host" "counter"
        (codes "name" ∷ []) (by_host (λ (h : Host). h.requests_handled) hs)
    ∷ family "oqp_host_failures_total" "Total upstream failures for host" "counter"
        (codes "name" ∷ []) (by_host (λ (h : Host). h.failures) hs)
    ∷ []

unfoldable pub routing_families : View → List Family
routing_families v =
    let rt = v.routing_table in
    let decided = rt.routing_decisions in
    family "oqp_host_models_installed" "Number of models installed on each host (/api/tags)" "gauge"
      (codes "host" ∷ []) (by_key (λ (h : Host). length h.installed_models) rt.states)
    ∷ family "oqp_routing_decisions_total" "Routing decisions by reason" "counter"
        (codes "reason" ∷ [])
        ((codes "model_match" ∷ [], decided.model_match)
          ∷ (codes "round_robin" ∷ [], decided.round_robin_count)
          ∷ (codes "fallback" ∷ [], decided.fallback)
          ∷ [])
    ∷ family "oqp_uptime_seconds" "Proxy uptime in seconds since last start" "gauge" ([])
        (one v.uptime)
    ∷ []

-- With an embedding cache, its counters.
unfoldable pub embedding_families : Option EmbeddingCache → Option (List Family)
unfolding counted zeros cache_families
embedding_families none = some []
embedding_families (some c) =
    cache_families (both (counted c.hits) (zeros c.hits c.misses)) (counted c.misses) c.errors

unfoldable pub between : List Family → Option (List Family) → List Family → Option (List Family)
between before none after = none
between before (some here) after = some (before ++ (here ++ after))

-- Everything that is shown, and `none` for an uncaught ValueError.
unfoldable pub families : View → Option (List Family)
unfolding between queue_families client_families embedding_families routing_families
families v =
    between (queue_families v ++ client_families v.client_states)
      (embedding_families v.embedding_cache) (routing_families v)

abbrev pub rendered : Option (List Family) → Option Codes
rendered none = none
rendered (some fs) = some (page_of (all_lines fs))

-- `metrics`, past its gate.
unfoldable pub metrics : View → Option Codes
unfolding families all_lines page_of
metrics v = rendered (families v)
