-- ===== src/Dashboard/Shown.antt =====
-- Who is shown the dashboard, and what a disabled one gives away.
use ollama_queue_proxy.Prelude.{
  ℕ, ◌≡◌, ◌↔◌, ◌⊎◌, inl, inr, refl, String, Bool, true, false, Option, none, some, Bool-cases,
}
use ollama_queue_proxy.Http.{Request, ErrorResponse}
use ollama_queue_proxy.Scope.{read, allows}
use ollama_queue_proxy.Config.{ApiKeyConfig}
use ollama_queue_proxy.Auth.{
  AuthManager, Outcome, returns, raises_type_error, key, authenticate, require_scope,
}
use ollama_queue_proxy.Auth.Gate.{require_scope_exact}
use ollama_queue_proxy.Dashboard.{
  DashboardConfig, DashboardAnswer, not_found, crashed, refused, page, gated, dashboard,
}

abbrev pub is_page : DashboardAnswer → Bool
is_page (page f) = true
is_page not_found = false
is_page crashed = false
is_page (refused e) = false

gated_exact :
    (c : DashboardConfig) (nonce : String) (gate : Outcome (Option ErrorResponse))
    → (is_page (gated c nonce gate) ≡ true) ↔ (gate ≡ returns none)
unfolding gated
gated_exact c nonce (returns none) = (λ e. refl, λ e. refl)
gated_exact c nonce (returns (some e)) = (λ h. cc, λ h. cc)
gated_exact c nonce raises_type_error = (λ h. cc, λ h. cc)

-- The page is shown exactly where the dashboard is enabled and authentication is off or the request
-- is authenticated as a key whose scope allows reading. A disabled dashboard answers every request
-- alike, as one that is not found, and no attempt is recorded.
pub dashboard_exact :
    (c : DashboardConfig) (nonce : String) (now : ℕ) (r : Request) (auth : AuthManager)
    → ((is_page (dashboard c nonce now r auth).0 ≡ true) ↔ (
        (c.enabled ≡ true)
        × ((auth.config.enabled ≡ false)
            ⊎ ((cfg : ApiKeyConfig) × ((authenticate now r auth).0 ≡ returns (key cfg))
                × (allows cfg.scope read ≡ true)))))
      × ((c.enabled ≡ true) ⊎ (dashboard c nonce now r auth ≡ (not_found, auth)))
unfolding dashboard
dashboard_exact c nonce now r auth =
    let shown = gated_exact c nonce (require_scope now r read auth).0 in
    let passes = (require_scope_exact now r read auth).0 in
    elim (Bool-cases c.enabled) [
      | inl on ↦
          rw (on, dashboard)
            ((λ h. (refl, passes.0 (shown.0 h)), λ h. shown.1 (passes.1 h.1)), inl refl)
      | inr off ↦ rw (off, dashboard) ((λ h. cc, λ h. cc h.0), inr refl)
    ]
