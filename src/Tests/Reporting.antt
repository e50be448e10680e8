-- ===== src/Tests/Reporting.antt =====
-- The targets of webhooks and what the proxy shows of its state, at concrete inputs.
use ollama_queue_proxy.Prelude.{
  ◌+◌, ◌*◌, ◌^◌, ◌≡◌, ◌⊎◌, refl, true, false, String, Option, none, some, List, [], ◌∷◌, contains,
  str_eq, arith, if◌then◌else◌,
}
use ollama_queue_proxy.Proxy.Dispatch.{has}
use ollama_queue_proxy.Queue.State.{init, QueueItem, Manager}
use ollama_queue_proxy.Priority.{normal}
use ollama_queue_proxy.Routing.{RoutingTable, round_robin, mark_unhealthy, hosts}
use ollama_queue_proxy.Routing as Routing
use ollama_queue_proxy.Status.{View, queue_summary}
use ollama_queue_proxy.Json.{string, object, no_member, member}
use ollama_queue_proxy.Webhooks.{
  WebhookConfig, fire, Address, v4, v6, accepted, refused, private_address, Resolved, unknown_host,
  resolves_to, validate_host, validate_webhook_url,
}
use ollama_queue_proxy.Webhooks.Targets.{
  Targets, validate_webhook_url_sound, mapped_address_accepted,
}
use ollama_queue_proxy.Tests.Data.{queue_config, fast_host, slow_host}

-- What the third-party parsers say of a few texts.
abbrev pub urlparse : String → String × Option String
urlparse url =
    if str_eq url "https://hooks.example.com/x"
    then ("https", some "hooks.example.com")
    else ("ftp", none)

abbrev pub ip_address : String → Option Address
ip_address host =
    if str_eq host "::ffff:10.0.0.1"
    then some (v6 (65535 * 2 ^ 32 + 167772161))
    else if str_eq host "10.0.0.1"
    then some (v4 167772161)
    else none

abbrev pub message : String → String
message host = host

abbrev pub resolve : String → Resolved
resolve host =
    if str_eq host "hooks.example.com" then resolves_to (v4 134744072 ∷ []) else unknown_host

url_accepted :
    validate_webhook_url urlparse ip_address message resolve "https://hooks.example.com/x" []
    ≡ accepted
unfolding validate_webhook_url
url_accepted = refl

validate_webhook_url_sound_example :
    (str_eq "https://hooks.example.com/x" "" ≡ true)
    ⊎ ((host : String) × (contains
            ("http" ∷ "https" ∷ [])
            (urlparse "https://hooks.example.com/x").0
          ≡ true)
        × ((urlparse "https://hooks.example.com/x").1 ≡ some host)
        × Targets urlparse ip_address message resolve [] host)
validate_webhook_url_sound_example =
    validate_webhook_url_sound urlparse ip_address message resolve "https://hooks.example.com/x" []
      url_accepted

literal_refused :
    validate_host urlparse ip_address message resolve [] "10.0.0.1" ≡ refused private_address
unfolding validate_host
literal_refused = refl

has_private : has "private.example.com" "private" ≡ true
has_private = refl

mapped_address_accepted_example :
    validate_host urlparse ip_address message resolve [] "::ffff:10.0.0.1" ≡ accepted
mapped_address_accepted_example =
    mapped_address_accepted urlparse ip_address message resolve [] "::ffff:10.0.0.1" 167772161
      (omega arith) refl

abbrev sorted : List String → List String
sorted names = names

abbrev waiting_item : QueueItem
waiting_item = record {
  tier = normal;
  enqueue_time = 0;
  request_id = "r";
  future = 0;
  position = 1;
  nbytes = 10;
}

-- Two requests wait, and one of two hosts is down.
abbrev manager : Manager
manager = record (init queue_config 2) {
  queues = record { at_high = waiting_item ∷ []; at_normal = waiting_item ∷ []; at_low = [] };
}

abbrev pub view : View
view = record {
  queue_manager = manager;
  routing_table = mark_unhealthy "a" (Routing.init round_robin (fast_host ∷ slow_host ∷ []));
  clients = [];
  client_states = none;
  embedding_cache = none;
  auth_enabled = true;
  allow_model_management = false;
  active_keys = 2;
  max_concurrent = 2;
  uptime = 60;
}

one_healthy : (queue_summary view).hosts_healthy ≡ 1
unfolding queue_summary mark_unhealthy Routing.init
one_healthy = refl

abbrev hook : WebhookConfig
hook = record {
  enabled = true;
  url = "https://hooks.example.com/x";
  events = "queue.full" ∷ [];
  allowed_hosts = [];
}

full_posted :
    fire hook "queue.full" "2026-01-01T00:00:00+00:00" (some "low") no_member
    ≡ some (record {
      url = "https://hooks.example.com/x";
      json = object (
          member "event" (string "queue.full") (
            member "timestamp"
              (string "2026-01-01T00:00:00+00:00")
              (member "tier" (string "low") no_member)));
    })
unfolding fire
full_posted = refl

drained_not_posted : fire hook "queue.drained" "2026-01-01T00:00:00+00:00" none no_member ≡ none
unfolding fire
drained_not_posted = refl
