-- ===== src/Gateway/Cached/Repeated.antt =====
-- A request whose answer is stored is served without the queue, and the rest goes the way it goes
-- without a cache.
use ollama_queue_proxy.Prelude.{
  ℕ, ◌≤◌, ◌<◌, ◌≡◌, refl, ap, ◌∙◌, String, true, false, Option, some, List, Dict, contains, length,
  arith,
}
use ollama_queue_proxy.Http.{Request, Response, upstream, json}
use ollama_queue_proxy.Priority.{Tier}
use ollama_queue_proxy.Json.{Json, Members}
use ollama_queue_proxy.Body.{Body, body, too_large, Field, Loaded}
use ollama_queue_proxy.Cache.{
  EmbeddingCache, Fetched, Stored, stored, get, set, payload_of, cache_key, metric_key, count,
}
use ollama_queue_proxy.Cache.RoundTrip.{Remembers, get-set}
use ollama_queue_proxy.Gateway.{AppState, count_processed, with_body}
use ollama_queue_proxy.Gateway.Cached.{
  cacheable_paths, passed, cache_query, answer_of, look_up, serve, from_cache, with_cache,
  store_answer,
}

module _ {Store : Type 0} (parse : List ℕ → Option Json) (utf8 : String → List ℕ)
    (canonical : Json → List ℕ) (sha256 : List ℕ → String) (backend_get : String → Store → Fetched)
    (backend_setex : String → ℕ → List ℕ → Store → Stored × Store) where
  -- On a path that is not cacheable, all goes as without a cache.
  with_cache-with_body :
      (int : String → Option ℕ) (loads : List ℕ → Loaded) (dumps : Dict Field → List ℕ) (now : ℕ)
      (r : Request) (client : Option String) (tier : Tier) (path : String) (b : Body)
      (state : AppState) (c : EmbeddingCache) (s : Store)
      → contains cacheable_paths path ≡ false
      → let (intake, after) = with_body int loads dumps now r client tier path b state in
        with_cache parse utf8 canonical sha256 backend_get backend_setex loads dumps now r client
          tier path b state c s
        ≡ ((passed intake, after), c)
  unfolding with_cache from_cache look_up serve with_body
  with_cache-with_body int loads dumps now r client tier path (too_large e) state c s h = refl
  with_cache-with_body int loads dumps now r client tier path (body bytes) state c s h =
      ground arith

  look_up-get :
      (now : ℕ) (path : String) (sent : List ℕ) (client : Option String) (m : Members)
      (model : String) (c : EmbeddingCache) (s : Store)
      → contains cacheable_paths path ≡ true
      → cache_query parse sent ≡ some (m, model)
      → look_up parse utf8 canonical sha256 backend_get backend_setex now path sent client c s
        ≡ get utf8 canonical sha256 backend_get backend_setex now path m model client c s
  unfolding look_up
  look_up-get now path sent client m model c s h q = ground arith

  store_answer-set :
      (now : ℕ) (path : String) (sent : List ℕ) (a : Response) (m : Members) (model : String)
      (c : EmbeddingCache) (s : Store)
      → contains cacheable_paths path ≡ true
      → a.status_code ≡ 200
      → a.kind ≡ json
      → cache_query parse sent ≡ some (m, model)
      → store_answer parse utf8 canonical sha256 backend_get backend_setex now path sent
          (upstream a)
          c
          s
        ≡ set utf8 canonical sha256 backend_get backend_setex now path m model a.body c s
  unfolding store_answer
  store_answer-set now path sent a m model c s h ok kind q = ground arith

  -- Where the backend keeps what it has stored: once a JSON answer of status 200 within the size limit is
  -- stored for a request of a cacheable path, a request for the same model and payload is answered out
  -- of the cache, whatever its tier and its client: the queue and the hosts are left alone, and it
  -- is counted as processed for its client.
  pub repeat_served :
      Remembers utf8 canonical sha256 backend_get backend_setex
      → (now later : ℕ) (r : Request) (client : Option String) (tier : Tier)
        (path ns model : String) (sent other : List ℕ) (m n : Members) (payload : Json)
        (a : Response) (state : AppState) (c : EmbeddingCache) (s : Store)
      → contains cacheable_paths path ≡ true
      → a.status_code ≡ 200
      → a.kind ≡ json
      → cache_query parse sent ≡ some (m, model)
      → cache_query parse other ≡ some (n, model)
      → c.config.enabled ≡ true
      → c.connected ≡ true
      → 0 < c.config.ttl
      → length a.body ≤ c.config.max_entry_bytes
      → payload_of path m ≡ some (ns, payload)
      → payload_of path n ≡ some (ns, payload)
      → (backend_setex
          (cache_key utf8 canonical sha256 c.config.key_prefix ns model payload)
          c.config.ttl
          a.body
          s).0
        ≡ stored
      → let (c', s') =
          store_answer parse utf8 canonical sha256 backend_get backend_setex now path sent
            (upstream a)
            c
            s in
        from_cache parse utf8 canonical sha256 backend_get backend_setex later r client tier path
          other state c' s'
        ≡ (
          (
            answer_of parse a.body,
            record state { client_stats = count_processed client state.client_stats },
          ),
          record c { hits = count (metric_key client model path) c.hits },
        )
  unfolding from_cache serve
  repeat_served keeps now later r client tier path ns model sent other m n payload a state c s h ok
        kind q q' on up live small p p' done =
      let answered =
        store_answer parse utf8 canonical sha256 backend_get backend_setex now path sent
          (upstream a) c s in
      ap
        (λ (found : Option (List ℕ) × EmbeddingCache). (
          serve parse utf8 canonical sha256 backend_get backend_setex later r client tier path other
              found.0 state,
          found.1,
        ))
        (look_up-get later path other client n model answered.0 answered.1 h q'
          ∙ ap
              (λ (x : EmbeddingCache × Store).
                get utf8 canonical sha256 backend_get backend_setex later path n model client x.0
                  x.1)
              (store_answer-set now path sent a m model c s h ok kind q)
          ∙ get-set utf8 canonical sha256 backend_get backend_setex keeps now later path m n model
              ns payload client a.body c s on up live small p p' done)
