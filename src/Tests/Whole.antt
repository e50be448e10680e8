-- ===== src/Tests/Whole.antt =====
-- The whole proxy, and its answers to clients of OpenAI, at concrete inputs.
use ollama_queue_proxy.Prelude.{
  ℕ, ◌+◌, ◌≤◌, ◌<◌, ◌≡◌, ◌⊎◌, refl, ap, String, Option, none, some, List, [], ◌∷◌, length,
  get_elem?, ◌==◌, if◌then◌else◌,
}
use ollama_queue_proxy.Priority.{high, low}
use ollama_queue_proxy.Config.{ApiKeyConfig}
use ollama_queue_proxy.Http.{Response, json, upstream, text}
use ollama_queue_proxy.Json.{
  Json, string, number, array, object, Items, nil, cons, Members, no_member, member, get_member,
}
use ollama_queue_proxy.Queue.Steps as Steps
use ollama_queue_proxy.Queue.Steps.{start}
use ollama_queue_proxy.Queue.Enqueue.{enqueue, check_watermark, admit}
use ollama_queue_proxy.Queue.Worker.{take, get_nowait}
use ollama_queue_proxy.System.{
  Event, submits, takes, goes_on, forwards, waits_for_cap, upstream_of, System, boot,
  concurrency_manager, step, run,
}
use ollama_queue_proxy.System.Tally.{ups, cap_of}
use ollama_queue_proxy.System.Caps.{IsCapped, run_caps, run_unblocks, parked_blocks}
use ollama_queue_proxy.Gateway.Compat.{wrap_response, wrap_body, compat_answer}
use ollama_queue_proxy.Gateway.Compat.Vectors.{read_openai, compat_vectors}
use ollama_queue_proxy.Tests.Data.{worker_key, admin_key, queue_config}

abbrev batch_key : ApiKeyConfig
batch_key = record worker_key { client_id = "batch"; max_concurrent = 1 }

abbrev keys : List ApiKeyConfig
keys = batch_key ∷ admin_key ∷ []

-- Two requests of the client with a cap of one are taken by both workers, then the other client comes.
abbrev two_of_batch : List Event
two_of_batch =
    submits (some "batch") low 0 "r1" 10
    ∷ submits (some "batch") low 1 "r2" 10
    ∷ takes 2
    ∷ takes 3
    ∷ submits (some "admin") high 4 "r3" 10
    ∷ []

abbrev reached : System
reached = run two_of_batch (boot queue_config 2 keys)

one_waits : reached.phases ≡ upstream_of (some "batch") ∷ waits_for_cap (some "batch") ∷ []
unfolding run step boot Steps.step Steps.submit enqueue check_watermark admit take get_nowait
    Steps.take_turn
one_waits = refl

cap_of_batch : cap_of "batch" (concurrency_manager keys) ≡ some 1
unfolding concurrency_manager
cap_of_batch = refl

second_waits : get_elem? reached.phases 1 ≡ some (waits_for_cap (some "batch"))
second_waits = ap (λ ps. get_elem? ps 1) one_waits

both_taken : length reached.phases ≡ 2
both_taken = ap length one_waits

run_caps_example :
    (length reached.phases ≤ 2)
    × (length reached.phases ≡ length reached.loop.running)
    × IsCapped "batch" reached (cap_of "batch" (concurrency_manager keys))
run_caps_example = run_caps queue_config 2 keys two_of_batch "batch"

-- The one that is upstream is counted, and so is the one that waits.
batch_shown :
    IsCapped "batch" reached (cap_of "batch" (concurrency_manager keys))
    ≡ IsCapped "batch" reached (some 1)
batch_shown = ap (IsCapped "batch" reached) cap_of_batch

-- With both workers taken, a request for metadata goes upstream.
passes_by : (step (forwards (some "batch")) reached).direct ≡ some "batch" ∷ []
unfolding run step boot Steps.step Steps.submit enqueue check_watermark admit take get_nowait
    Steps.take_turn
passes_by = refl

run_unblocks_example :
    (c : String) × (cap : ℕ) × (some "batch" ≡ some c)
    × (cap_of c (concurrency_manager keys) ≡ some cap)
    × ((ups c (step (goes_on c) reached).phases ≡ ups c reached.phases + 1)
        ⊎ ((0 < cap) × (ups c reached.phases ≡ cap)))
run_unblocks_example = run_unblocks queue_config 2 keys two_of_batch 1 (some "batch") second_waits

-- The other client's request of the highest tier waits, with one request upstream.
parked_blocks_example : step (takes 5) reached ≡ reached
parked_blocks_example = parked_blocks queue_config 2 keys two_of_batch 5 both_taken

abbrev embed_body : Members
embed_body =
    member "embeddings"
      (array (cons (array (cons (number 1) nil)) (cons (array (cons (number 2) nil)) nil)))
      (member "model" (string "bge-m3") no_member)

abbrev embed_answer : Response
embed_answer = record {
  kind = json;
  status_code = 200;
  body = 1 ∷ [];
  headers = ("X-Failover-Host", text "a") ∷ [];
}

abbrev no_characters : String → Items
no_characters s = nil

abbrev wrapped : Json
unfolding wrap_body
wrapped = elim (wrap_body no_characters (object embed_body)) [ none ↦ string "" | some j ↦ j ]

-- One text for what the host answers, and another for what it is wrapped into.
abbrev parse : List ℕ → Option Json
parse [] = none
parse (b ∷ rest) = if b == 1 then some (object embed_body) else some wrapped

abbrev render : Json → List ℕ
render j = 2 ∷ []

renders :
    (j : Json) → wrap_response no_characters none embed_body ≡ some j → parse (render j) ≡ some j
unfolding wrap_response wrap_body
renders j e = e

compat_vectors_example :
    (r : Response) × (compat_answer no_characters parse render (upstream embed_answer)
      ≡ some (upstream r))
    × (r.status_code ≡ 200)
    × (r.headers ≡ [])
    × (read_openai (parse r.body)
        ≡ some (
          cons (array (cons (number 1) nil)) (cons (array (cons (number 2) nil)) nil),
          string "bge-m3",
        ))
unfolding get_member
compat_vectors_example =
    compat_vectors no_characters parse render embed_answer embed_body
      (cons (array (cons (number 1) nil)) (cons (array (cons (number 2) nil)) nil))
      (string "bge-m3") refl refl refl refl refl renders
