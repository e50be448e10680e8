-- ===== src/Cache/RoundTrip.antt =====
-- What is put into the cache of src/ollama_queue_proxy/cache.py comes out again.
use ollama_queue_proxy.Prelude.{
  ℕ, ◌≤◌, ◌<◌, ◌≡◌, refl, String, true, Option, some, List, length, arith,
}
use ollama_queue_proxy.Json.{Json, Members}
use ollama_queue_proxy.Cache.{
  EmbeddingCacheConfig, EmbeddingCache, payload_of, cache_key, build_key, metric_key, count,
  Fetched, found, Stored, stored, fetch, get, after_set, set,
}

module _ {Store : Type 0} (utf8 : String → List ℕ) (canonical : Json → List ℕ)
    (sha256 : List ℕ → String) (backend_get : String → Store → Fetched)
    (backend_setex : String → ℕ → List ℕ → Store → Stored × Store) where
  -- A value that is stored is found under its key until its time is up.
  abbrev pub Remembers : Type 0
  Remembers =
      (key : String) (ttl : ℕ) (value : List ℕ) (s : Store)
      → 0 < ttl
      → (backend_setex key ttl value s).0 ≡ stored
      → backend_get key (backend_setex key ttl value s).1 ≡ found value

  build_key-payload :
      (config : EmbeddingCacheConfig) (path : String) (body : Members) (model ns : String)
      (payload : Json)
      → payload_of path body ≡ some (ns, payload)
      → build_key utf8 canonical sha256 config path body model
        ≡ some (cache_key utf8 canonical sha256 config.key_prefix ns model payload)
  unfolding build_key
  build_key-payload config path body model ns payload h = rw (h, build_key) refl

  set_stores :
      (now : ℕ) (path : String) (body : Members) (model ns : String) (payload : Json)
      (response : List ℕ) (c : EmbeddingCache) (s : Store)
      → c.config.enabled ≡ true
      → c.connected ≡ true
      → length response ≤ c.config.max_entry_bytes
      → payload_of path body ≡ some (ns, payload)
      → let key = cache_key utf8 canonical sha256 c.config.key_prefix ns model payload in
        (backend_setex key c.config.ttl response s).0 ≡ stored
        → set utf8 canonical sha256 backend_get backend_setex now path body model response c s
          ≡ (c, (backend_setex key c.config.ttl response s).1)
  unfolding set after_set
  set_stores now path body model ns payload response c s on up small p ok =
      let key = build_key-payload c.config path body model ns payload p in ground (arith, key)

  get_finds :
      (now : ℕ) (path : String) (body : Members) (model ns : String) (payload : Json)
      (client : Option String) (value : List ℕ) (c : EmbeddingCache) (s : Store)
      → c.config.enabled ≡ true
      → c.connected ≡ true
      → payload_of path body ≡ some (ns, payload)
      → backend_get (cache_key utf8 canonical sha256 c.config.key_prefix ns model payload) s
        ≡ found value
      → get utf8 canonical sha256 backend_get backend_setex now path body model client c s
        ≡ (some value, record c { hits = count (metric_key client model path) c.hits })
  unfolding get fetch
  get_finds now path body model ns payload client value c s on up p e =
      let key = build_key-payload c.config path body model ns payload p in ground (arith, key)

  -- Where the backend keeps what it has stored: once a response within the size limit is stored for a
  -- model and a payload, a request for the same model and payload is answered with it, whichever client
  -- asks and however its body is written otherwise, and is counted as one hit.
  pub get-set :
      Remembers
      → (now later : ℕ) (path : String) (body other : Members) (model ns : String) (payload : Json)
        (client : Option String) (response : List ℕ) (c : EmbeddingCache) (s : Store)
      → c.config.enabled ≡ true
      → c.connected ≡ true
      → 0 < c.config.ttl
      → length response ≤ c.config.max_entry_bytes
      → payload_of path body ≡ some (ns, payload)
      → payload_of path other ≡ some (ns, payload)
      → (backend_setex
          (cache_key utf8 canonical sha256 c.config.key_prefix ns model payload)
          c.config.ttl
          response
          s).0
        ≡ stored
      → let (c', s') =
          set utf8 canonical sha256 backend_get backend_setex now path body model response c s in
        get utf8 canonical sha256 backend_get backend_setex later path other model client c' s'
        ≡ (some response, record c { hits = count (metric_key client model path) c.hits })
  get-set keeps now later path body other model ns payload client response c s on up live small p q
        ok =
      let key = cache_key utf8 canonical sha256 c.config.key_prefix ns model payload in
      rw (set_stores now path body model ns payload response c s on up small p ok) (
        get_finds later path other model ns payload client response c
          (backend_setex key c.config.ttl response s).1 on up q
          (keeps key c.config.ttl response s live ok))
