-- ===== src/Auth.antt =====
-- src/ollama_queue_proxy/auth.py: API keys, the limit on failed attempts, and the scope gate.
-- Times are readings of `time.monotonic()` in nanoseconds.
pub mod Keys
pub mod Limit
pub mod Guesses
pub mod Gate
pub mod Identity
use Prim.Native.String.{slice, len, ◌++◌ as text_append}
use ollama_queue_proxy.Prelude.{
  ℕ, ◌-◌, ◌*◌, String, Bool, true, false, ◌&&◌, Option, none, some, List, [], ◌∷◌, ◌++◌, Dict,
  insert, entries, codes, all, keep, length, ltb, leb, str_eq, starts_with, if◌then◌else◌,
}
use ollama_queue_proxy.Http.{Request, header, ErrorResponse, text, number}
use ollama_queue_proxy.Clock.{second}
use ollama_queue_proxy.Config.{ApiKeyConfig, AuthConfig}
use ollama_queue_proxy.Scope.{Scope, scope_name, allows}

-- Handlers that raise `e`, or return a value.
pub data Outcome (A : Type 0) : Type 0 where
  returns : A → Outcome A
  raises_type_error : Outcome A

pub record AuthManager : Type 0 where
  pub config : AuthConfig
  pub key_map : Dict ApiKeyConfig
  pub failures : Dict (List ℕ)

-- `{k.key: k for k in config.keys}`: a key that is given twice keeps its last entry.
add_keys : Dict ApiKeyConfig → List ApiKeyConfig → Dict ApiKeyConfig
add_keys d [] = d
add_keys d (k ∷ ks) = add_keys (insert k.key k d) ks

-- `AuthManager.__init__`
unfoldable pub init : AuthConfig → AuthManager
unfolding add_keys
init config = record { config = config; key_map = add_keys [] config.keys; failures = [] }

-- `hmac.compare_digest` on two `str`: a TypeError unless both are ASCII.
abbrev is_ascii : String → Bool
is_ascii s = all (λ c. ltb c 128) (codes s)

unfoldable pub compare_digest : String → String → Outcome Bool
compare_digest a b = if is_ascii a && is_ascii b then returns (str_eq a b) else raises_type_error

-- `lookup_key`: the comparisons go on until one succeeds.
unfoldable pub lookup_in : Dict ApiKeyConfig → String → Outcome (Option ApiKeyConfig)
lookup_in [] provided = returns none
lookup_in ((stored_key, cfg) ∷ rest) provided =
    let later = lookup_in rest provided in
    elim (compare_digest stored_key provided) [
      | returns true ↦ returns (some cfg)
      | returns false ↦ later
      | raises_type_error ↦ raises_type_error
    ]

unfoldable pub lookup_key : AuthManager → String → Outcome (Option ApiKeyConfig)
unfolding lookup_in
lookup_key m provided = lookup_in m.key_map provided

-- The attempts that still count at `now`.
pub recent : AuthManager → ℕ → String → List ℕ
recent m now ip =
    keep (λ t. ltb (now - t) (m.config.rate_limit.window_seconds * second)) (entries ip m.failures)

-- `_is_rate_limited`: it also forgets the attempts that have left the window.
unfoldable pub is_rate_limited : ℕ → String → AuthManager → Bool × AuthManager
unfolding recent
is_rate_limited now ip m = (
  leb m.config.rate_limit.max_failures (length (recent m now ip)),
  record m { failures = insert ip (recent m now ip) m.failures },
)

-- `_record_failure`
unfoldable pub record_failure : ℕ → String → AuthManager → AuthManager
record_failure now ip m = record m {
  failures = insert ip (entries ip m.failures ++ now ∷ []) m.failures;
}

-- `authenticate` returns a pair of which one part is None; both are None where auth is disabled.
pub data Verdict : Type 0 where
  open_access : Verdict
  key : ApiKeyConfig → Verdict
  denied : ErrorResponse → Verdict

too_many : Request → AuthManager → ErrorResponse
too_many r m = record {
  status_code = 429;
  error = "too many authentication failures";
  request_id = r.request_id;
  headers = ("Retry-After", number m.config.rate_limit.window_seconds) ∷ [];
}

pub unauthorized : Request → String → ErrorResponse
unauthorized r error = record {
  status_code = 401;
  error = error;
  request_id = r.request_id;
  headers = ("WWW-Authenticate", text "Bearer") ∷ [];
}

unfoldable pub client_ip : Request → String
client_ip r = elim r.client_host [ none ↦ "unknown" | some host ↦ host ]

-- The key that a request presents: what follows "Bearer " in its Authorization header.
unfoldable pub provided_key : Request → Option String
unfolding header
provided_key r = elim (header r "authorization") [
  | none ↦ none
  | some value ↦ if starts_with value "Bearer " then some (slice value 7 (len value)) else none
]

-- What `authenticate` does past the limit: `found` is the answer of `lookup_key`.
accept : ℕ → Request → Outcome (Option ApiKeyConfig) → AuthManager → Outcome Verdict × AuthManager
unfolding client_ip unauthorized
accept now r (returns (some cfg)) m =
    (returns (key cfg), record m { failures = insert (client_ip r) [] m.failures })
accept now r (returns none) m =
    (returns (denied (unauthorized r "invalid api key")), record_failure now (client_ip r) m)
accept now r raises_type_error m = (raises_type_error, m)

present : ℕ → Request → Option String → AuthManager → Outcome Verdict × AuthManager
unfolding accept
present now r none m = (
  returns (denied (unauthorized r "missing or invalid authorization header")),
  record_failure now (client_ip r) m,
)
present now r (some provided) m = accept now r (lookup_key m provided) m

-- Past the limit or not.
checked : ℕ → Request → Bool → AuthManager → Outcome Verdict × AuthManager
unfolding present too_many
checked now r true m = (returns (denied (too_many r m)), m)
checked now r false m = present now r (provided_key r) m

-- Whether authentication is enabled.
pub admitted : ℕ → Request → Bool → AuthManager → Outcome Verdict × AuthManager
unfolding checked
admitted now r false m = (returns open_access, m)
admitted now r true m =
    let (limited, pruned) = is_rate_limited now (client_ip r) m in checked now r limited pruned

unfoldable pub authenticate : ℕ → Request → AuthManager → Outcome Verdict × AuthManager
unfolding admitted
authenticate now r m = admitted now r m.config.enabled m

-- `scope_denied`
pub scope_denied : Request → Scope → ErrorResponse
unfolding scope_name
scope_denied r required = record {
  status_code = 403;
  error = text_append (scope_name required) " permission required";
  request_id = r.request_id;
  headers = [];
}

-- `require_scope`: an error answer, or nothing to proceed.
check_scope : Request → Scope → Bool → Outcome Verdict → Outcome (Option ErrorResponse)
unfolding scope_denied
check_scope r required enabled (returns (denied e)) = returns (some e)
check_scope r required enabled (returns (key cfg)) =
    if enabled
    then (if allows cfg.scope required
        then returns none
        else returns (some (scope_denied r required)))
    else returns none
check_scope r required enabled (returns open_access) =
    if enabled then returns (some (scope_denied r required)) else returns none
check_scope r required enabled raises_type_error = raises_type_error

pub require_scope : ℕ → Request → Scope → AuthManager → Outcome (Option ErrorResponse) × AuthManager
unfolding check_scope
require_scope now r required m =
    let (verdict, after) = authenticate now r m in
    (check_scope r required m.config.enabled verdict, after)
