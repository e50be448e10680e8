-- ===== src/Startup/Ready.antt =====
-- What `lifespan` has ready where it comes to its `yield`.
use ollama_queue_proxy.Prelude.{
  ℕ, ◌≡◌, inl, inr, refl, subst, String, Bool, true, false, Option, none, some, List, [], All, Dict,
  any, ltb, arith, Bool-cases, Option-cases,
}
use ollama_queue_proxy.Config.{ApiKeyConfig}
use ollama_queue_proxy.Concurrency.{ClientState, client_states}
use ollama_queue_proxy.Queue.Steps.{start}
use ollama_queue_proxy.Routing as Routing
use ollama_queue_proxy.Routing.{Host, RoutingTable, hosts, pick}
use ollama_queue_proxy.Routing.Total.{Weighs}
use ollama_queue_proxy.Cache.{EmbeddingCache, EmbeddingCacheConfig}
use ollama_queue_proxy.Webhooks.{Address, Resolved}
use ollama_queue_proxy.System.{boot, concurrency_manager}
use ollama_queue_proxy.Startup.{
  Settings, Deployment, runs, bad_webhook, startup_probe, cache_startup, assemble, lifespan,
}
use ollama_queue_proxy.Startup.Probe.{HasAnswered, Probed, startup_probe_lem}

-- The states of the clients of a `ClientConcurrencyManager`, if there is one.
abbrev pub states_of : Option (List ApiKeyConfig) → Dict ClientState
states_of none = []
states_of (some keys) = client_states [] keys

-- There is a cache where it is enabled, and then it is connected.
abbrev pub IsConnected : EmbeddingCacheConfig → Option EmbeddingCache → Type 0
IsConnected config none = config.enabled ≡ false
IsConnected config (some cache) =
    (config.enabled ≡ true) × (cache.connected ≡ true) × (cache.config ≡ config)

cache_startup-IsConnected :
    (pings : Bool) (config : EmbeddingCacheConfig) (cache : Option EmbeddingCache)
    → cache_startup pings config ≡ some cache
    → IsConnected config cache
cache_startup-IsConnected pings config none e = ground arith
cache_startup-IsConnected pings config (some c) e = ground arith

assembled :
    (c : Settings) (t : RoutingTable) (cache : Option EmbeddingCache)
    → let d = assemble c t cache in
      let s = boot c.queue c.sections.proxy.max_concurrent c.sections.auth.keys in
      (d.state.queue_manager ≡ s.loop.manager)
      × (states_of d.concurrency ≡ s.clients)
      × (d.workers ≡ s.loop.idle)
unfolding assemble boot start concurrency_manager
assembled c t cache =
    elim (Bool-cases (any (λ (k : ApiKeyConfig). ltb 0 k.max_concurrent) c.sections.auth.keys)) [
      | inl e ↦ (refl, rw e refl, refl)
      | inr e ↦ (refl, rw e refl, refl)
    ]

-- What is ready for a deployment.
pub record Ready (now : ℕ) (answers : Host → Option (List String)) (c : Settings)
    (model : Option String) (d : Deployment) : Type 0 where
  pub same_queue :
      d.state.queue_manager
      ≡ (boot c.queue c.sections.proxy.max_concurrent c.sections.auth.keys).loop.manager
  pub same_clients :
      states_of d.concurrency
      ≡ (boot c.queue c.sections.proxy.max_concurrent c.sections.auth.keys).clients
  pub same_workers :
      d.workers ≡ (boot c.queue c.sections.proxy.max_concurrent c.sections.auth.keys).loop.idle
  pub connected : IsConnected c.embedding_cache d.embedding_cache
  pub serves :
      (h : Host) × ((pick model d.routing_table).0 ≡ some h)
      × HasAnswered now answers (hosts (Routing.init c.strategy c.hosts)) h

module _ (urlparse : String → String × Option String) (ip_address : String → Option Address)
    (message : String → String) (resolve : String → Resolved) where
  probed :
      (now : ℕ) (answers : Host → Option (List String)) (t after : RoutingTable)
      (model : Option String)
      → All Weighs (hosts t)
      → startup_probe now answers t ≡ some after
      → Probed now answers model t (some after)
  probed now answers t after model w e =
      subst (Probed now answers model t) e (startup_probe_lem now answers t model w)

  built : (d d' : Deployment) → runs d ≡ runs d' → d ≡ d'
  built d d' e = cc

  -- Where `lifespan` comes to its `yield`, with weights that are positive as the configuration
  -- demands: the URL of an enabled webhook was accepted; the queue, the clients and the number of
  -- workers are those that the runs of the whole begin with; there is a cache exactly where it is
  -- enabled, and its backend is connected; and the first pick of a host, whatever the model, comes to one
  -- that has answered the probe.
  pub lifespan-Ready :
      (now : ℕ) (answers : Host → Option (List String)) (pings : Bool) (c : Settings)
      (model : Option String) (d : Deployment)
      → All Weighs (hosts (Routing.init c.strategy c.hosts))
      → lifespan urlparse ip_address message resolve now answers pings c ≡ runs d
      → (bad_webhook urlparse ip_address message resolve c.webhooks ≡ false)
        × Ready now answers c model d
  unfolding lifespan assemble
  lifespan-Ready now answers pings c model d w e =
      elim (Bool-cases (bad_webhook urlparse ip_address message resolve c.webhooks)) [
        | inl bad ↦ absurd (ground (arith, bad))
        | inr fine ↦
            elim (Option-cases (startup_probe now answers (Routing.init c.strategy c.hosts))) [
              | inl down ↦ absurd (ground (arith, fine, down))
              | inr (table, up) ↦ elim (Option-cases (cache_startup pings c.embedding_cache)) [
                | inl dead ↦ absurd (ground (arith, fine, up, dead))
                | inr (cache, live) ↦
                    let same : assemble c table cache ≡ d =
                      built (assemble c table cache) d (ground (arith, fine, up, live)) in
                    (
                      fine,
                      subst (Ready now answers c model) same (record {
                        same_queue = (assembled c table cache).0;
                        same_clients = (assembled c table cache).1;
                        same_workers = (assembled c table cache).2;
                        connected = cache_startup-IsConnected pings c.embedding_cache cache live;
                        serves =
                            probed now answers (Routing.init c.strategy c.hosts) table model w up;
                      }),
                    )
              ]
            ]
      ]
