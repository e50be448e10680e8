-- ===== src/Tests/Data.antt =====
-- A deployment with two keys, three tiers and two hosts.
use ollama_queue_proxy.Prelude.{ℕ, String, true, Option, none, some, List, [], ◌∷◌, Dict}
use ollama_queue_proxy.Http.{Request}
use ollama_queue_proxy.Priority.{high, normal}
use ollama_queue_proxy.Scope.{inference, management}
use ollama_queue_proxy.Config.{TierConfig, QueueConfig, HostConfig, ApiKeyConfig, AuthConfig}
use ollama_queue_proxy.Body.{Field, Loaded, not_json}

abbrev pub worker_key : ApiKeyConfig
worker_key = record {
  key = "sk-worker";
  client_id = "worker";
  max_priority = normal;
  scope = inference;
  max_concurrent = 2;
}

abbrev pub admin_key : ApiKeyConfig
admin_key = record {
  key = "sk-admin";
  client_id = "admin";
  max_priority = high;
  scope = management;
  max_concurrent = 0;
}

abbrev pub auth_config : AuthConfig
auth_config = record {
  enabled = true;
  keys = worker_key ∷ admin_key ∷ [];
  rate_limit = record { max_failures = 2; window_seconds = 60 };
}

abbrev tier_limits : TierConfig
tier_limits = record { max_depth = 10; max_wait = 300; high_watermark_pct = 80 }

abbrev pub queue_config : QueueConfig
queue_config = record {
  high = tier_limits;
  normal = tier_limits;
  low = tier_limits;
  overflow_status_code = 503;
  max_queued_mb = 1;
}

abbrev pub request_with : Dict String → Request
request_with headers = record {
  method = "POST";
  path = "/api/generate";
  query = "";
  headers = headers;
  client_host = some "10.0.0.7";
  request_id = "r1";
}

abbrev pub worker_request : Request
worker_request =
    request_with (("authorization", "Bearer sk-worker") ∷ ("x-queue-priority", "high") ∷ [])

abbrev pub wrong_request : Request
wrong_request = request_with (("authorization", "Bearer sk-guess") ∷ [])

abbrev pub fast_host : HostConfig
fast_host = record { url = "http://a"; name = "a"; weight = 2; model_sync_interval = 30 }

abbrev pub slow_host : HostConfig
slow_host = record { url = "http://b"; name = "b"; weight = 1; model_sync_interval = 30 }

abbrev pub no_int : String → Option ℕ
no_int value = none

-- A client that sends no JSON.
abbrev pub no_json : List ℕ → Loaded
no_json bytes = not_json

abbrev pub no_dump : Dict Field → List ℕ
no_dump d = []
