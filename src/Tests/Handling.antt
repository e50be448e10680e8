-- ===== src/Tests/Handling.antt =====
-- Requests and controls from end to end, at concrete inputs.
use ollama_queue_proxy.Prelude.{
  ℕ, ◌≤◌, ◌≡◌, ◌≢◌, refl, String, true, false, Option, some, List, [], ◌∷◌, Dict, length, subst,
  arith,
}
use ollama_queue_proxy.Priority.{priority_order}
use ollama_queue_proxy.Scope.{inference, management, allows}
use ollama_queue_proxy.Config.{ApiKeyConfig}
use ollama_queue_proxy.Auth as Auth
use ollama_queue_proxy.Auth.{
  authenticate, returns, key, is_rate_limited, provided_key, lookup_key, lookup_in, compare_digest,
  unauthorized,
}
use ollama_queue_proxy.Queue.State as State
use ollama_queue_proxy.Queue.Enqueue.{enqueue}
use ollama_queue_proxy.Body.{
  read_body, declares_too_much, max_bytes, Field, text_field, Loaded, object, inject_keep_alive,
  set_keep_alive, KeepAliveConfig, collect,
}
use ollama_queue_proxy.Gateway.{AppState, answered, enqueue_request}
use ollama_queue_proxy.Gateway.Handlers.{proxy_handler, injection_handler}
use ollama_queue_proxy.Gateway.Entitled.{reaches, tier_at_most, proxy_handler_entitled}
use ollama_queue_proxy.Gateway.Listener.{passes, capped, listen, listen_entitled}
use ollama_queue_proxy.Gateway.Refused.{QueuesKept, proxy_handler_refused}
use ollama_queue_proxy.Admin.{flushing, queue_control, queue_drain, all_drained, still_waits}
use ollama_queue_proxy.Admin.Gate.{is_controlled, queue_control_gated}
use ollama_queue_proxy.Tests.Data.{
  worker_key, auth_config, queue_config, worker_request, wrong_request, no_int, no_json, no_dump,
}

abbrev keep_alive_config : KeepAliveConfig
keep_alive_config = record { default = "5m"; override = false }

-- A body with a model and no `keep_alive`.
abbrev sent_fields : Dict Field
sent_fields = ("model", text_field "llama3") ∷ []

abbrev forwarded_fields : Dict Field
forwarded_fields = ("model", text_field "llama3") ∷ ("keep_alive", text_field "5m") ∷ []

-- A code of two bodies: the one that is sent, and the one that is forwarded.
abbrev loads : List ℕ → Loaded
loads [] = object forwarded_fields
loads (c ∷ rest) = object sent_fields

adds_keep_alive :
    loads (no_dump (set_keep_alive keep_alive_config sent_fields))
    ≡ object (set_keep_alive keep_alive_config sent_fields)
unfolding set_keep_alive
adds_keep_alive = refl

abbrev sent_bytes : List ℕ
sent_bytes = 7 ∷ []

small : length sent_bytes ≤ max_bytes 1
unfolding max_bytes
small = omega arith

abbrev pub state : AppState
state = record {
  shutting_down = false;
  max_request_body_mb = 1;
  keep_alive = keep_alive_config;
  auth_manager = Auth.init auth_config;
  queue_manager = State.init queue_config 2;
  client_stats = [];
  next_future = 0;
}

worker_reaches : reaches (proxy_handler no_int no_json no_dump 5 worker_request [] state).0 ≡ true
unfolding proxy_handler reaches authenticate Auth.init is_rate_limited provided_key lookup_key
    compare_digest enqueue_request allows read_body declares_too_much collect enqueue State.init
    inject_keep_alive
worker_reaches = refl

auth_on : state.auth_manager.config.enabled ≡ true
unfolding Auth.init
auth_on = refl

proxy_handler_entitled_example :
    (cfg : ApiKeyConfig) × ((authenticate 5 worker_request state.auth_manager).0
      ≡ returns (key cfg))
    × (allows cfg.scope inference ≡ true)
    × (tier_at_most
          (priority_order cfg.max_priority)
          (proxy_handler no_int no_json no_dump 5 worker_request [] state).0
        ≡ true)
proxy_handler_entitled_example =
    proxy_handler_entitled no_int no_json no_dump 5 worker_request [] state auth_on worker_reaches

listener_passes :
    passes (listen no_int no_json no_dump "worker" worker_key 5 wrong_request [] (some state)).0
    ≡ true
unfolding listen injection_handler reaches enqueue_request allows read_body declares_too_much
    collect enqueue State.init inject_keep_alive
listener_passes = refl

listen_entitled_example :
    ((s : AppState) × (some state ≡ some s) × (s.shutting_down ≡ false))
    × (allows worker_key.scope inference ≡ true)
    × (capped
          (priority_order worker_key.max_priority)
          (listen no_int no_json no_dump "worker" worker_key 5 wrong_request [] (some state)).0
        ≡ true)
listen_entitled_example =
    listen_entitled no_int no_json no_dump "worker" worker_key 5 wrong_request [] (some state)
      listener_passes

wrong_answered :
    (proxy_handler no_int no_json no_dump 5 wrong_request [] state).0
    ≡ answered (unauthorized wrong_request "invalid api key")
unfolding proxy_handler authenticate Auth.init is_rate_limited provided_key lookup_key
    compare_digest
wrong_answered = refl

proxy_handler_refused_example :
    QueuesKept state.queue_manager
      (proxy_handler no_int no_json no_dump 5 wrong_request [] state).1.queue_manager
proxy_handler_refused_example =
    proxy_handler_refused no_int no_json no_dump 5 wrong_request [] state
      (unauthorized wrong_request "invalid api key") wrong_answered

abbrev quoted : String → String
quoted name = name

worker_is_key : (authenticate 5 worker_request (Auth.init auth_config)).0 ≡ returns (key worker_key)
unfolding authenticate Auth.init is_rate_limited provided_key lookup_key lookup_in compare_digest
worker_is_key = refl

worker_only :
    (cfg : ApiKeyConfig)
    → (authenticate 5 worker_request (Auth.init auth_config)).0 ≡ returns (key cfg)
    → allows cfg.scope management ≡ false
unfolding allows
worker_only cfg e =
    let same : worker_key ≡ cfg = cc (e, worker_is_key) in
    subst (λ c. allows c.scope management ≡ false) same refl

queue_control_gated_example :
    let m = State.init queue_config 2 in
    ((queue_control quoted flushing 5 worker_request (some "nowhere") (Auth.init auth_config) m).2
      ≡ m)
    × (is_controlled
          (queue_control quoted flushing 5 worker_request
            (some "nowhere")
            (Auth.init auth_config)
            m).0
        ≡ false)
    × ((other : Option String)
        → queue_control quoted flushing 5 worker_request other (Auth.init auth_config) m
          ≡ queue_control quoted flushing 5 worker_request
              (some "nowhere")
              (Auth.init auth_config)
              m)
    × (((queue_drain 5 worker_request (Auth.init auth_config) (m ∷ [])).0
          ≡ (queue_drain 5 worker_request (Auth.init auth_config) []).0)
        × ((queue_drain 5 worker_request (Auth.init auth_config) (m ∷ [])).0 ≢ all_drained)
        × ((queue_drain 5 worker_request (Auth.init auth_config) (m ∷ [])).0 ≢ still_waits))
queue_control_gated_example =
    queue_control_gated quoted flushing 5 worker_request (some "nowhere") (Auth.init auth_config)
      (State.init queue_config 2) (State.init queue_config 2 ∷ []) auth_on worker_only
