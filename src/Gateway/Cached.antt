-- ===== src/Gateway/Cached.antt =====
-- `_enqueue_request` of src/ollama_queue_proxy/main.py in a deployment with an embedding cache: what
-- it does past `read_body`, and what it stores of an answer.
pub mod Repeated
use ollama_queue_proxy.Prelude.{
  ℕ, zero, String, Bool, true, false, ◌&&◌, Option, none, some, List, [], ◌∷◌, Dict, contains, ◌==◌,
  if◌then◌else◌,
}
use ollama_queue_proxy.Http.{Request, Answer, upstream, error, Kind, json, streaming}
use ollama_queue_proxy.Priority.{Tier}
use ollama_queue_proxy.Json.{
  Json, null, boolean, number, string, array, object, Items, nil, Members, no_member, get_member,
}
use ollama_queue_proxy.Body.{Body, body, too_large, Field, Loaded, inject_keep_alive}
use ollama_queue_proxy.Cache.{EmbeddingCache, Fetched, Stored, get, set}
use ollama_queue_proxy.Gateway.{
  AppState, Intake, answered, forwarded, metadata_fast_path, keep_alive_paths, count_processed,
  item_for, submit,
}

-- `CACHEABLE_PATHS`
abbrev pub cacheable_paths : List String
cacheable_paths = "/api/embed" ∷ "/api/embeddings" ∷ []

-- `extract_model(body) or ""`. A value that is true and no text has no key in the cache.
abbrev pub model_text : Option Json → Option String
model_text none = some ""
model_text (some (string s)) = some s
model_text (some null) = some ""
model_text (some (boolean false)) = some ""
model_text (some (number zero)) = some ""
model_text (some (array nil)) = some ""
model_text (some (object no_member)) = some ""
model_text (some _) = none

-- What a request comes to: an answer out of the cache, an uncaught exception on its text, or what it
-- comes to without a cache.
pub data Looked : Type 0 where
  served : Json → Looked
  unreadable : Looked
  passed : Intake → Looked

abbrev pub is_json : Kind → Bool
is_json json = true
is_json streaming = false

-- `parse` is `json.loads`, `none` for its ValueError.
module _ (parse : List ℕ → Option Json) where
  abbrev dictionary : Option Json → Option Members
  dictionary none = some no_member
  dictionary (some (object m)) = some m
  dictionary (some _) = none

  -- `cache_body_data`
  unfoldable pub cache_body_data : List ℕ → Option Members
  cache_body_data [] = some no_member
  cache_body_data (b ∷ bytes) = dictionary (parse (b ∷ bytes))

  -- `cache_body_data` with `cache_model`.
  unfoldable pub cache_query : List ℕ → Option (Members × String)
  unfolding cache_body_data get_member
  cache_query sent = elim (cache_body_data sent) [
    | none ↦ none
    | some m ↦ elim (model_text (get_member "model" m)) [
      | none ↦ none
      | some model ↦ some (m, model)
    ]
  ]

  unfoldable pub answer_of : List ℕ → Looked
  answer_of cached = elim (parse cached) [ none ↦ unreadable | some j ↦ served j ]

module _ {Store : Type 0} (parse : List ℕ → Option Json) (utf8 : String → List ℕ)
    (canonical : Json → List ℕ) (sha256 : List ℕ → String) (backend_get : String → Store → Fetched)
    (backend_setex : String → ℕ → List ℕ → Store → Stored × Store) where
  unfoldable pub look_up :
      ℕ
      → String
      → List ℕ
      → Option String
      → EmbeddingCache
      → Store
      → Option (List ℕ) × EmbeddingCache
  unfolding cache_query get
  look_up now path sent client c s =
      if contains cacheable_paths path
      then elim (cache_query parse sent) [
        | none ↦ (none, c)
        | some (m, model) ↦
            get utf8 canonical sha256 backend_get backend_setex now path m model client c s
      ]
      else (none, c)

  -- Past the look-up: the answer, or the queue.
  unfoldable pub serve :
      ℕ
      → Request
      → Option String
      → Tier
      → String
      → List ℕ
      → Option (List ℕ)
      → AppState
      → Looked × AppState
  unfolding answer_of count_processed submit
  serve now r client tier path sent (some cached) state = (
    answer_of parse cached,
    record state { client_stats = count_processed client state.client_stats },
  )
  serve now r client tier path sent none state =
      let (intake, after) = submit r client (item_for now r tier sent state) path sent state in
      (passed intake, after)

  -- Past `keep_alive`.
  unfoldable pub from_cache :
      ℕ
      → Request
      → Option String
      → Tier
      → String
      → List ℕ
      → AppState
      → EmbeddingCache
      → Store
      → (Looked × AppState) × EmbeddingCache
  unfolding look_up serve
  from_cache now r client tier path sent state c s =
      let (cached, c') = look_up now path sent client c s in
      (serve now r client tier path sent cached state, c')

  -- Past `read_body`.
  unfoldable pub with_cache :
      (loads : List ℕ → Loaded) (dumps : Dict Field → List ℕ)
      → ℕ
      → Request
      → Option String
      → Tier
      → String
      → Body
      → AppState
      → EmbeddingCache
      → Store
      → (Looked × AppState) × EmbeddingCache
  unfolding from_cache metadata_fast_path keep_alive_paths
  with_cache loads dumps now r client tier path (too_large e) state c s =
      ((passed (answered e), state), c)
  with_cache loads dumps now r client tier path (body bytes) state c s =
      if contains metadata_fast_path path
      then ((passed (forwarded path bytes), state), c)
      else (let sent =
            if contains keep_alive_paths path
            then inject_keep_alive loads dumps state.keep_alive state.max_request_body_mb bytes
            else bytes in
          from_cache now r client tier path sent state c s)

  -- What is stored of an answer; an error answer never has the status 200.
  unfoldable pub store_answer :
      ℕ → String → List ℕ → Answer → EmbeddingCache → Store → EmbeddingCache × Store
  unfolding cache_query set
  store_answer now path sent (error e) c s = (c, s)
  store_answer now path sent (upstream a) c s =
      if contains cacheable_paths path && (a.status_code == 200 && is_json a.kind)
      then elim (cache_query parse sent) [
        | none ↦ (c, s)
        | some (m, model) ↦
            set utf8 canonical sha256 backend_get backend_setex now path m model a.body c s
      ]
      else (c, s)
