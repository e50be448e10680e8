-- ===== src/Tests/Caching.antt =====
-- The cache of embeddings, at concrete inputs.
use ollama_queue_proxy.Prelude.{
  ℕ, ◌≡◌, ◌⊎◌, refl, true, String, Option, none, some, List, [], ◌∷◌, ◌++◌, Dict, insert, lookup,
  lookup-insert_self, if◌then◌else◌, ◌==◌, codes,
}
use ollama_queue_proxy.Json.{Json, string, array, nil, cons, Members, no_member, member}
use ollama_queue_proxy.Cache.{
  EmbeddingCache, payload_of, Fetched, found, missing, Stored, stored, get, set,
}
use ollama_queue_proxy.Cache.RoundTrip.{Remembers}
use ollama_queue_proxy.Cache.Redact.{redacted, userinfo_bled, redact_backend_url}
use ollama_queue_proxy.Cache.Secrets.{url_of}
use ollama_queue_proxy.Cache.Startup.{Failure, withheld, startup_error_detail, fatal_message}
use ollama_queue_proxy.Cache.Printed.{IsDetail, fatal_message_hides}
use ollama_queue_proxy.Config.Env.{Codes, after_prefix}

-- A backend that is a dictionary, and an encoding of texts, for JSON that is a text.
abbrev pub Backend : Type 0
Backend = Dict (List ℕ)

abbrev pub backend_get : String → Backend → Fetched
backend_get key s = elim (lookup key s) [ none ↦ missing | some v ↦ found v ]

abbrev pub backend_setex : String → ℕ → List ℕ → Backend → Stored × Backend
backend_setex key ttl value s = (stored, insert key value s)

abbrev pub canonical : Json → List ℕ
canonical (string s) = codes s
canonical j = []

-- In place of a digest, a text that tells models by their first letter.
abbrev pub digest : List ℕ → String
digest [] = "00000000000000000000000000000000"
digest (c ∷ bytes) =
    if c == b'n' then "11111111111111111111111111111111" else "22222222222222222222222222222222"

pub remembers : Remembers codes canonical digest backend_get backend_setex
remembers key ttl value s live ok = rw (lookup-insert_self key value s, backend_get) refl

abbrev pub cache : EmbeddingCache
cache = record {
  config = record { enabled = true; ttl = 3600; max_entry_bytes = 1000; key_prefix = "oqp:" };
  connected = true;
  last_error_log = 0;
  hits = [];
  misses = [];
  errors = [];
}

-- The two ways to write one input.
abbrev pub as_text : Members
as_text = member "input" (string "hello") no_member

abbrev pub as_list : Members
as_list =
    member "model" (string "nomic") (member "input" (array (cons (string "hello") nil)) no_member)

abbrev pub input : Json
input = array (cons (string "hello") nil)

text_payload : payload_of "/api/embed" as_text ≡ some ("embed", input)
unfolding payload_of
text_payload = refl

list_payload : payload_of "/api/embed" as_list ≡ some ("embed", input)
unfolding payload_of
list_payload = refl

other_model :
    let (c, s) =
      set codes canonical digest backend_get backend_setex 0 "/api/embed" as_text "nomic"
        (1 ∷ 2 ∷ [])
        cache
        [] in
    (get codes canonical digest backend_get backend_setex 5 "/api/embed" as_list "mxbai" none c s).0
    ≡ none
unfolding get set
other_model = refl

-- `parse_qs`, of a query that is one `db` at most.
abbrev db_of : Codes → Codes
db_of query = elim (after_prefix (codes "db=") query) [ none ↦ [] | some value ↦ value ]

-- A password with an "@" in it, which `urlsplit` leaves in front of the host.
abbrev netloc : Codes → Option Codes
netloc url = some (codes ":p@ss@h:6379")

abbrev refused : Failure
refused = record {
  type_name = codes "ConnectionError";
  message = codes "Error 111 connecting to h:6379.";
  is_redis_error = true;
}

fatal_message_hides_example :
    let url = url_of (codes "redis") (codes ":p@ss") (codes "h:6379/0") in
    (shown detail : Codes) × (fatal_message db_of netloc url refused
      ≡ codes "FATAL: embedding cache startup failed — could not connect to '"
        ++ (shown
            ++ (codes "': "
                ++ (detail
                    ++ codes ". Fix the backend address or set embedding_cache.enabled: false."))))
    × ((shown ≡ redact_backend_url db_of (url_of (codes "redis") [] (codes "h:6379/0")))
        ⊎ (shown ≡ redacted (codes "redis")))
    × IsDetail netloc url (codes ":p@ss") refused detail
fatal_message_hides_example =
    fatal_message_hides db_of netloc (codes "redis") (codes ":p@ss") (codes "h:6379/0") refused refl
      refl

-- A password with a "/" in it, whose rest redis-py would quote.
detail_withheld :
    startup_error_detail db_of (λ url. some (codes ":p")) (codes "redis://:p/w@h") refused
    ≡ withheld (codes "ConnectionError")
unfolding startup_error_detail redact_backend_url userinfo_bled
detail_withheld = refl

hidden :
    redact_backend_url db_of (codes "redis://:p@ss@h:6379/0?db=2#x") ≡ codes "redis://h:6379/0?db=2"
unfolding redact_backend_url
hidden = refl

ambiguous : redact_backend_url db_of (codes "redis://:p?w@h:6379") ≡ codes "redis://<redacted>"
unfolding redact_backend_url
ambiguous = refl

bled : userinfo_bled (λ url. none) (codes "redis://:p@h") ≡ true
unfolding userinfo_bled
bled = refl
