-- ===== src/Auth/Identity.antt =====
-- The errors of src/ollama_queue_proxy/auth.py name their request.
use ollama_queue_proxy.Prelude.{ℕ, ◌≡◌, refl, String, Bool, true, false, Option, none, some}
use ollama_queue_proxy.Http.{Request}
use ollama_queue_proxy.Scope.{Scope}
use ollama_queue_proxy.Config.{ApiKeyConfig}
use ollama_queue_proxy.Auth.{
  AuthManager, Outcome, returns, raises_type_error, Verdict, open_access, key, denied, authenticate,
  admitted, checked, present, accept, provided_key, lookup_key, is_rate_limited, client_ip,
  too_many, unauthorized, scope_denied,
}

abbrev pub DeniedCarries : String → Outcome Verdict → Type 0
DeniedCarries id (returns (denied e)) = e.request_id ≡ id
DeniedCarries id (returns open_access) = Unit
DeniedCarries id (returns (key k)) = Unit
DeniedCarries id raises_type_error = Unit

accept-DeniedCarries :
    (now : ℕ) (r : Request) (found : Outcome (Option ApiKeyConfig)) (m : AuthManager)
    → DeniedCarries r.request_id (accept now r found m).0
unfolding accept unauthorized
accept-DeniedCarries now r (returns none) m = refl
accept-DeniedCarries now r (returns (some k)) m = tt
accept-DeniedCarries now r raises_type_error m = tt

present-DeniedCarries :
    (now : ℕ) (r : Request) (provided : Option String) (m : AuthManager)
    → DeniedCarries r.request_id (present now r provided m).0
unfolding present unauthorized
present-DeniedCarries now r none m = refl
present-DeniedCarries now r (some p) m = accept-DeniedCarries now r (lookup_key m p) m

checked-DeniedCarries :
    (now : ℕ) (r : Request) (limited : Bool) (m : AuthManager)
    → DeniedCarries r.request_id (checked now r limited m).0
unfolding checked too_many
checked-DeniedCarries now r true m = refl
checked-DeniedCarries now r false m = present-DeniedCarries now r (provided_key r) m

admitted-DeniedCarries :
    (now : ℕ) (r : Request) (enabled : Bool) (m : AuthManager)
    → DeniedCarries r.request_id (admitted now r enabled m).0
unfolding admitted
admitted-DeniedCarries now r false m = tt
admitted-DeniedCarries now r true m =
    checked-DeniedCarries now r (is_rate_limited now (client_ip r) m).0
      (is_rate_limited now (client_ip r) m).1

pub authenticate-DeniedCarries :
    (now : ℕ) (r : Request) (m : AuthManager) → DeniedCarries r.request_id (authenticate now r m).0
unfolding authenticate
authenticate-DeniedCarries now r m = admitted-DeniedCarries now r m.config.enabled m

pub request_id-scope_denied :
    (r : Request) (required : Scope) → (scope_denied r required).request_id ≡ r.request_id
unfolding scope_denied
request_id-scope_denied r required = refl
