-- ===== src/Tests/Access.antt =====
-- Keys, scopes, priorities and the limit on failed attempts, at concrete inputs.
use ollama_queue_proxy.Prelude.{ℕ, ◌≡◌, refl, true, false, some, List, [], ◌∷◌}
use ollama_queue_proxy.Http.{Request}
use ollama_queue_proxy.Priority.{normal, enforce_priority_ceiling}
use ollama_queue_proxy.Auth.{
  AuthManager, init, authenticate, returns, raises_type_error, key, provided_key, is_rate_limited,
  lookup_key, compare_digest, client_ip, lookup_in, record_failure,
}
use ollama_queue_proxy.Auth.Limit.{is_401}
use mathlib.Core.List.{Mem}
use ollama_queue_proxy.Auth.Keys.{authenticate_sound}
use ollama_queue_proxy.Auth.Guesses.{checked_guesses}
use ollama_queue_proxy.Auth.Gate.{authenticate_non_ascii}
use ollama_queue_proxy.Tests.Data.{
  worker_key, admin_key, auth_config, worker_request, wrong_request, request_with,
}

ceiling_low : enforce_priority_ceiling "high" (some normal) ≡ normal
unfolding enforce_priority_ceiling
ceiling_low = refl

abbrev pub manager : AuthManager
manager = record (init auth_config) { failures = [] }

authenticated : (authenticate 5 worker_request manager).0 ≡ returns (key worker_key)
unfolding authenticate init is_rate_limited provided_key lookup_key compare_digest
authenticated = refl

authenticate_sound_example :
    (provided_key worker_request ≡ some worker_key.key) × Mem worker_key auth_config.keys
authenticate_sound_example =
    authenticate_sound auth_config [] 5 worker_request worker_key authenticated

-- Two guesses and the two that follow them.
abbrev guesses : List (ℕ × Request)
guesses = (1, wrong_request) ∷ (2, wrong_request) ∷ (3, wrong_request) ∷ (4, wrong_request) ∷ []

guesses_counted : checked_guesses "10.0.0.7" guesses manager ≡ 2
unfolding checked_guesses authenticate init is_rate_limited provided_key lookup_in lookup_key
    compare_digest client_ip record_failure is_401
guesses_counted = refl

abbrev accented : Request
accented = request_with (("authorization", "Bearer é") ∷ [])

-- What the configuration makes of its two keys.
two_keys : manager.key_map ≡ ("sk-worker", worker_key) ∷ ("sk-admin", admin_key) ∷ []
unfolding init
two_keys = refl

on : manager.config.enabled ≡ true
unfolding init
on = refl

accented_provided : provided_key accented ≡ some "é"
unfolding provided_key
accented_provided = refl

not_limited : (is_rate_limited 5 (client_ip accented) manager).0 ≡ false
unfolding is_rate_limited init client_ip
not_limited = refl

authenticate_non_ascii_example :
    authenticate 5 accented manager
    ≡ (raises_type_error, (is_rate_limited 5 (client_ip accented) manager).1)
authenticate_non_ascii_example =
    authenticate_non_ascii 5 accented manager "sk-worker" worker_key (("sk-admin", admin_key) ∷ [])
      "é" on two_keys accented_provided refl not_limited
