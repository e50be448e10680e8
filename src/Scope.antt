-- ===== src/Scope.antt =====
-- Scopes of API keys: `SCOPE_ORDER` and `ApiKeyConfig.allows` of src/ollama_queue_proxy/config.py.
use ollama_queue_proxy.Prelude.{ℕ, ◌≡◌, ◌↔◌, String, Bool, true, leb, arith}

pub data Scope : Type 0 where
  read inference management : Scope

scope_order : Scope → ℕ
scope_order read = 0
scope_order inference = 1
scope_order management = 2

unfoldable pub scope_name : Scope → String
scope_name read = "read"
scope_name inference = "inference"
scope_name management = "management"

-- `allows`, for a key of the first scope.
unfoldable pub allows : Scope → Scope → Bool
unfolding scope_order
allows scope required = leb (scope_order required) (scope_order scope)

-- Scopes are cumulative: one scope is at least another exactly when it allows all that the other
-- allows.
pub allows_cumulative :
    (a b : Scope)
    → (allows a b ≡ true)
      ↔ ((required : Scope) → allows b required ≡ true → allows a required ≡ true)
unfolding allows
allows_cumulative a b = (λ h required k. ground arith, λ all. all b (ground arith))
