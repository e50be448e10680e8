-- ===== src/Gateway/Handlers.antt =====
-- The two ways in: `proxy_handler` of src/ollama_queue_proxy/main.py, and `injection_handler` of
-- src/ollama_queue_proxy/injection.py, with the path rules of openai_compat.py.
use ollama_queue_proxy.Prelude.{
  ℕ, String, Option, none, some, List, [], ◌∷◌, Dict, contains, if◌then◌else◌,
}
use ollama_queue_proxy.Http.{Request, header, ErrorResponse}
use ollama_queue_proxy.Priority.{
  Tier, tier_name, parse_priority, enforce_priority_ceiling, injection_tier,
}
use ollama_queue_proxy.Config.{ApiKeyConfig}
use ollama_queue_proxy.Auth.{
  Outcome, returns, raises_type_error, Verdict, open_access, key, denied, authenticate,
}
use ollama_queue_proxy.Body.{Field, Loaded}
use ollama_queue_proxy.Gateway.{AppState, Intake, answered, crashed, enqueue_request}

-- `get_client_id`
pub get_client_id : Request → Option String
unfolding header
get_client_id r = header r "x-client-id"

unfoldable pub shutting_down_error : Request → ErrorResponse
shutting_down_error r = record {
  status_code = 503;
  error = "proxy is shutting down";
  request_id = r.request_id;
  headers = [];
}

-- `is_openai_compat_path` and `rewrite_path`, on a path with one leading slash.
pub rewrite_path : String → Option String
rewrite_path path = if contains ("/v1/embeddings" ∷ []) path then some "/api/embed" else none

-- The tier that the caller asks for, under the ceiling of its key.
unfoldable pub tier_for : Request → Option ApiKeyConfig → Tier
unfolding header parse_priority tier_name enforce_priority_ceiling
tier_for r none =
    enforce_priority_ceiling (tier_name (parse_priority (header r "x-queue-priority"))) none
tier_for r (some cfg) =
    enforce_priority_ceiling (tier_name (parse_priority (header r "x-queue-priority")))
      (some cfg.max_priority)

module _ (int : String → Option ℕ) (loads : List ℕ → Loaded) (dumps : Dict Field → List ℕ) where
  -- What follows `authenticate`. Without authentication there is no key, and the client names itself.
  unfoldable pub after_auth :
      ℕ → Request → List (List ℕ) → Outcome Verdict → AppState → Intake × AppState
  unfolding tier_for rewrite_path get_client_id
  after_auth now r chunks (returns open_access) s =
      enqueue_request int loads dumps now r chunks (get_client_id r) (tier_for r none)
        (rewrite_path r.path) none s
  after_auth now r chunks (returns (key cfg)) s =
      enqueue_request int loads dumps now r chunks (some cfg.client_id) (tier_for r (some cfg))
        (rewrite_path r.path) (some cfg) s
  after_auth now r chunks (returns (denied e)) s = (answered e, s)
  after_auth now r chunks raises_type_error s = (crashed, s)

  unfoldable pub proxy_handler : ℕ → Request → List (List ℕ) → AppState → Intake × AppState
  unfolding after_auth shutting_down_error
  proxy_handler now r chunks s =
      if s.shutting_down
      then (answered (shutting_down_error r), s)
      else (let (verdict, auth) = authenticate now r s.auth_manager in
          after_auth now r chunks verdict (record s { auth_manager = auth }))

  -- `injection_handler`, on the listener of `key_cfg`, whose client is `inject_as`.
  unfoldable pub injection_handler :
      String → ApiKeyConfig → ℕ → Request → List (List ℕ) → AppState → Intake × AppState
  unfolding shutting_down_error header injection_tier
  injection_handler inject_as key_cfg now r chunks s =
      if s.shutting_down
      then (answered (shutting_down_error r), s)
      else enqueue_request int loads dumps now r chunks (some inject_as)
          (injection_tier (header r "x-queue-priority") key_cfg.max_priority) none (some key_cfg) s
