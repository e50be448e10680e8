-- ===== src/Auth/Gate.antt =====
-- The scope gate, and tokens that no comparison accepts.
use ollama_queue_proxy.Prelude.{
  ℕ, ◌≡◌, ◌≢◌, ◌↔◌, ◌⊎◌, inl, inr, refl, String, Bool, true, false, none, some, ◌∷◌, Dict, arith,
}
use ollama_queue_proxy.Http.{Request}
use ollama_queue_proxy.Scope.{Scope, allows}
use ollama_queue_proxy.Config.{ApiKeyConfig}
use ollama_queue_proxy.Auth.{
  AuthManager, Outcome, returns, raises_type_error, Verdict, open_access, key, denied, lookup_in,
  lookup_key, provided_key, compare_digest, is_rate_limited, authenticate, admitted, checked,
  present, accept, client_ip, require_scope, check_scope, is_ascii,
}

-- What lets a verdict through.
abbrev Passes : Scope → Outcome Verdict → Type 0
Passes required v =
    (cfg : ApiKeyConfig) × (v ≡ returns (key cfg)) × (allows cfg.scope required ≡ true)

check_scope-enabled :
    (r : Request) (required : Scope) (v : Outcome Verdict)
    → (check_scope r required true v ≡ returns none) ↔ Passes required v
unfolding check_scope
check_scope-enabled r required (returns open_access) = (λ e. cc, λ (cfg, e, a). cc)
check_scope-enabled r required (returns (denied x)) = (λ e. cc, λ (cfg, e, a). cc)
check_scope-enabled r required raises_type_error = (λ e. cc, λ (cfg, e, a). cc)
check_scope-enabled r required (returns (key c)) =
    (λ e. (c, refl, ground arith), λ (cfg, e, a). ground arith)

check_scope-admitted :
    (now : ℕ) (r : Request) (required : Scope) (enabled : Bool) (m : AuthManager)
    → (check_scope r required enabled (admitted now r enabled m).0 ≡ returns none)
      ↔ ((enabled ≡ false) ⊎ Passes required (admitted now r enabled m).0)
unfolding admitted check_scope
check_scope-admitted now r required false m = (λ e. inl refl, λ h. refl)
check_scope-admitted now r required true m =
    let both = check_scope-enabled r required (admitted now r true m).0 in
    (λ e. inr (both.0 e), elim [ inl off ↦ cc | inr h ↦ both.1 h ])

-- A gated route proceeds exactly when authentication is disabled, or when the request is
-- authenticated as a key whose scope allows what the route requires; it leaves the failures that
-- authentication leaves.
pub require_scope_exact :
    (now : ℕ) (r : Request) (required : Scope) (m : AuthManager)
    → (((require_scope now r required m).0 ≡ returns none) ↔ (
        (m.config.enabled ≡ false)
        ⊎ ((cfg : ApiKeyConfig) × ((authenticate now r m).0 ≡ returns (key cfg))
            × (allows cfg.scope required ≡ true))))
      × ((require_scope now r required m).1 ≡ (authenticate now r m).1)
unfolding require_scope authenticate
require_scope_exact now r required m =
    (check_scope-admitted now r required m.config.enabled m, refl)

lookup_in-non_ascii :
    (d : Dict ApiKeyConfig) (k : String) (c : ApiKeyConfig) (provided : String)
    → is_ascii provided ≡ false
    → lookup_in ((k, c) ∷ d) provided ≡ raises_type_error
unfolding lookup_in compare_digest
lookup_in-non_ascii d k c provided h = ground arith

key_map-pruned :
    (now : ℕ) (ip : String) (m : AuthManager) → (is_rate_limited now ip m).1.key_map ≡ m.key_map
unfolding is_rate_limited
key_map-pruned now ip m = refl

-- While an address is under the limit, a Bearer token from it that is not ASCII makes `authenticate` raise a TypeError
-- instead of answering 401, whatever keys there are, and no failed attempt is recorded for the address: only the
-- attempts that have left the window are forgotten.
pub authenticate_non_ascii :
    (now : ℕ) (r : Request) (m : AuthManager) (k : String) (c : ApiKeyConfig)
    (d : Dict ApiKeyConfig) (provided : String)
    → m.config.enabled ≡ true
    → m.key_map ≡ (k, c) ∷ d
    → provided_key r ≡ some provided
    → is_ascii provided ≡ false
    → (is_rate_limited now (client_ip r) m).0 ≡ false
    → authenticate now r m ≡ (raises_type_error, (is_rate_limited now (client_ip r) m).1)
unfolding authenticate admitted checked present accept lookup_key
authenticate_non_ascii now r m k c d provided on keys given bad free =
    ground (arith, key_map-pruned now (client_ip r) m, lookup_in-non_ascii d k c provided)

checked-closed :
    (now : ℕ) (r : Request) (b : Bool) (m : AuthManager)
    → (checked now r b m).0 ≢ returns open_access
unfolding checked present accept
checked-closed now r true m e = cc
checked-closed now r false m e = ground arith

-- With authentication on, every request that passes has a key.
pub authenticate-closed :
    (now : ℕ) (r : Request) (m : AuthManager)
    → m.config.enabled ≡ true
    → (authenticate now r m).0 ≢ returns open_access
unfolding authenticate admitted
authenticate-closed now r m on e =
    checked-closed now r (is_rate_limited now (client_ip r) m).0
      (is_rate_limited now (client_ip r) m).1 (ground arith)
