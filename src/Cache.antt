-- ===== src/Cache.antt =====
-- src/ollama_queue_proxy/cache.py: the cache of embeddings. `Store` is the state of the backend, and
-- times are nanoseconds.
pub mod Keys
pub mod RoundTrip
pub mod Redact
pub mod Secrets
pub mod Startup
pub mod Printed
use Prim.Native.String.{slice, ◌++◌ as text_append}
use ollama_queue_proxy.Prelude.{
  ℕ, zero, suc, ◌+◌, ◌-◌, ◌*◌, String, Bool, true, false, not, ◌||◌, Option, none, some, List, [],
  ◌∷◌, ◌++◌, Dict, lookup, insert, length, ltb, leb, str_eq, if◌then◌else◌,
}
use ollama_queue_proxy.Clock.{second}
use ollama_queue_proxy.Json.{Json, string, array, nil, cons, Members, get_member}

pub record EmbeddingCacheConfig : Type 0 where
  pub enabled : Bool
  pub ttl : ℕ
  pub max_entry_bytes : ℕ
  pub key_prefix : String

-- The cache with the module's counters. `connected` is `_client is not None`.
pub record EmbeddingCache : Type 0 where
  pub config : EmbeddingCacheConfig
  pub connected : Bool
  pub last_error_log : ℕ
  pub hits : Dict ℕ
  pub misses : Dict ℕ
  pub errors : Dict ℕ

unfoldable pub error_log_cooldown : ℕ
error_log_cooldown = 60 * second

-- `body_data.get("input", "")`, a single text as a list of one.
unfoldable pub embed_input : Members → Json
unfolding get_member
embed_input body = elim (get_member "input" body) [
  | none ↦ array (cons (string "") nil)
  | some (string s) ↦ array (cons (string s) nil)
  | some other ↦ other
]

-- `body_data.get("prompt", "")`
unfoldable pub embeddings_prompt : Members → Json
unfolding get_member
embeddings_prompt body = elim (get_member "prompt" body) [ none ↦ string "" | some v ↦ v ]

-- The name space and the payload of a cacheable path.
unfoldable pub payload_of : String → Members → Option (String × Json)
unfolding embed_input embeddings_prompt
payload_of path body =
    if str_eq path "/api/embed"
    then some ("embed", embed_input body)
    else if str_eq path "/api/embeddings"
    then some ("embeddings", embeddings_prompt body)
    else none

unfoldable pub metric_key : Option String → String → String → String
metric_key client_id model endpoint =
    let client : String = elim client_id [
      | none ↦ "anon"
      | some c ↦ if str_eq c "" then "anon" else c
    ] in
    text_append client (text_append "," (text_append model (text_append "," endpoint)))

-- `d[key] = d.get(key, 0) + 1`
unfoldable pub count : String → Dict ℕ → Dict ℕ
count key d = insert key (elim (lookup key d) [ none ↦ 1 | some n ↦ n + 1 ]) d

-- `utf8` encodes a text, `canonical` is the sorted and compact `json.dumps`, in UTF-8, and `sha256` is
-- the digest in hexadecimal digits.
unfoldable pub preimage :
    (utf8 : String → List ℕ) (canonical : Json → List ℕ) → String → Json → List ℕ
preimage utf8 canonical model payload = utf8 model ++ 0 ∷ canonical payload

module _ (utf8 : String → List ℕ) (canonical : Json → List ℕ) (sha256 : List ℕ → String) where
  unfoldable pub cache_key : String → String → String → Json → String
  unfolding preimage
  cache_key prefix endpoint_ns model payload = text_append prefix (
      text_append "v1:" (
        text_append endpoint_ns
          (text_append ":" (slice (sha256 (preimage utf8 canonical model payload)) 0 32))))

  -- `_build_key`
  unfoldable pub build_key : EmbeddingCacheConfig → String → Members → String → Option String
  unfolding payload_of cache_key
  build_key config path body model = elim (payload_of path body) [
    | none ↦ none
    | some (endpoint_ns, payload) ↦ some (cache_key config.key_prefix endpoint_ns model payload)
  ]

-- `_log_error`, by the name of the exception's type.
unfoldable pub log_error : ℕ → String → EmbeddingCache → EmbeddingCache
unfolding count error_log_cooldown
log_error now kind c =
    let counted = record c { errors = count kind c.errors } in
    if leb error_log_cooldown (now - c.last_error_log)
    then record counted { last_error_log = now }
    else counted

-- What the backend answers to GET.
pub data Fetched : Type 0 where
  found : List ℕ → Fetched
  missing : Fetched
  get_fails : String → Fetched

-- What it answers to SETEX.
pub data Stored : Type 0 where
  stored : Stored
  set_fails : String → Stored

module _ {Store : Type 0} (utf8 : String → List ℕ) (canonical : Json → List ℕ)
    (sha256 : List ℕ → String) (backend_get : String → Store → Fetched)
    (backend_setex : String → ℕ → List ℕ → Store → Stored × Store) where
  -- `get`, past the test on the client.
  unfoldable pub fetch : ℕ → String → Fetched → EmbeddingCache → Option (List ℕ) × EmbeddingCache
  unfolding count log_error
  fetch now mkey (found value) c = (some value, record c { hits = count mkey c.hits })
  fetch now mkey missing c = (none, record c { misses = count mkey c.misses })
  fetch now mkey (get_fails kind) c = (none, log_error now kind c)

  unfoldable pub get :
      ℕ
      → String
      → Members
      → String
      → Option String
      → EmbeddingCache
      → Store
      → Option (List ℕ) × EmbeddingCache
  unfolding fetch metric_key build_key
  get now path body model client_id c s =
      if not c.config.enabled || not c.connected
      then (none, c)
      else elim (build_key utf8 canonical sha256 c.config path body model) [
        | none ↦ (none, c)
        | some key ↦ fetch now (metric_key client_id model path) (backend_get key s) c
      ]

  unfoldable pub after_set : ℕ → Stored × Store → EmbeddingCache → EmbeddingCache × Store
  unfolding log_error
  after_set now (stored, s) c = (c, s)
  after_set now (set_fails kind, s) c = (log_error now kind c, s)

  unfoldable pub set :
      ℕ → String → Members → String → List ℕ → EmbeddingCache → Store → EmbeddingCache × Store
  unfolding after_set build_key
  set now path body model response c s =
      if not c.config.enabled || not c.connected
      then (c, s)
      else if ltb c.config.max_entry_bytes (length response)
      then (c, s)
      else elim (build_key utf8 canonical sha256 c.config path body model) [
        | none ↦ (c, s)
        | some key ↦ after_set now (backend_setex key c.config.ttl response s) c
      ]
