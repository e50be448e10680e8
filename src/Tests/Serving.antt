-- ===== src/Tests/Serving.antt =====
-- The gateway with a cache, at a concrete input.
use ollama_queue_proxy.Prelude.{
  ℕ, ◌≡◌, refl, Option, none, some, List, [], ◌∷◌, arith, ◌==◌, if◌then◌else◌,
}
use ollama_queue_proxy.Http.{Response, upstream, json}
use ollama_queue_proxy.Priority.{normal}
use ollama_queue_proxy.Json.{Json, string, object, no_member, member}
use ollama_queue_proxy.Cache.{payload_of, metric_key, count}
use ollama_queue_proxy.Gateway.{count_processed}
use ollama_queue_proxy.Gateway.Cached.{cache_query, answer_of, from_cache, store_answer}
use ollama_queue_proxy.Gateway.Cached.Repeated.{repeat_served}
use ollama_queue_proxy.Prelude.{codes}
use ollama_queue_proxy.Tests.Data.{worker_request}
use ollama_queue_proxy.Tests.Caching.{
  backend_get, backend_setex, canonical, digest, cache, as_list, input, remembers,
}
use ollama_queue_proxy.Tests.Handling.{state}

-- A code of two texts: a request, and what is answered.
abbrev parse : List ℕ → Option Json
parse [] = none
parse (c ∷ bytes) =
    if c == 1
    then some (object as_list)
    else some (object (member "embeddings" (string "v") no_member))

abbrev sent : List ℕ
sent = 1 ∷ []

abbrev stored_answer : Response
stored_answer = record { kind = json; status_code = 200; body = 2 ∷ []; headers = [] }

sent_query : cache_query parse sent ≡ some (as_list, "nomic")
unfolding cache_query
sent_query = refl

sent_payload : payload_of "/api/embed" as_list ≡ some ("embed", input)
unfolding payload_of
sent_payload = refl

repeat_served_example :
    let (c, s) =
      store_answer parse codes canonical digest backend_get backend_setex 1 "/api/embed" sent
        (upstream stored_answer)
        cache
        [] in
    from_cache parse codes canonical digest backend_get backend_setex 2 worker_request
      (some "worker")
      normal
      "/api/embed"
      sent
      state
      c
      s
    ≡ (
      (
        answer_of parse (2 ∷ []),
        record state { client_stats = count_processed (some "worker") state.client_stats },
      ),
      record cache { hits = count (metric_key (some "worker") "nomic" "/api/embed") [] },
    )
repeat_served_example =
    repeat_served parse codes canonical digest backend_get backend_setex remembers 1 2
      worker_request (some "worker") normal "/api/embed" "embed" "nomic" sent sent as_list as_list
      input stored_answer state cache [] refl refl refl sent_query sent_query refl refl
      (omega arith) (omega arith) sent_payload sent_payload refl
