-- ===== src/Dashboard.antt =====
-- src/ollama_queue_proxy/routes/dashboard.py: who is shown the page. Its text is a constant.
pub mod Shown
use Prim.Native.String.{◌++◌ as text_append}
use ollama_queue_proxy.Prelude.{
  ℕ, ◌*◌, String, Bool, true, false, not, Option, none, some, [], ◌∷◌, Dict, if◌then◌else◌,
}
use ollama_queue_proxy.Http.{Request, ErrorResponse}
use ollama_queue_proxy.Scope.{read}
use ollama_queue_proxy.Auth.{AuthManager, Outcome, returns, raises_type_error, require_scope}

pub record DashboardConfig : Type 0 where
  pub enabled : Bool
  pub refresh_seconds : ℕ

-- What is written into the page, and the headers that are sent with it.
pub record Filled : Type 0 where
  pub nonce : String
  pub refresh_ms : ℕ
  pub headers : Dict String

pub data DashboardAnswer : Type 0 where
  not_found crashed : DashboardAnswer
  refused : ErrorResponse → DashboardAnswer
  page : Filled → DashboardAnswer

abbrev pub then_text : String → String → String
then_text s t = text_append s t

unfoldable pub policy : String → String
policy nonce = then_text "default-src 'none'; style-src 'nonce-" (
    then_text nonce (
      then_text "'; script-src 'nonce-" (
        then_text nonce
          "'; connect-src 'self'; base-uri 'none'; form-action 'none'; frame-ancestors 'none'")))

unfoldable pub gated : DashboardConfig → String → Outcome (Option ErrorResponse) → DashboardAnswer
unfolding policy
gated c nonce (returns none) = page (record {
  nonce = nonce;
  refresh_ms = c.refresh_seconds * 1000;
  headers =
      ("Content-Security-Policy", policy nonce)
      ∷ ("X-Content-Type-Options", "nosniff")
      ∷ ("Referrer-Policy", "no-referrer")
      ∷ ("X-Frame-Options", "DENY")
      ∷ [];
})
gated c nonce (returns (some e)) = refused e
gated c nonce raises_type_error = crashed

-- `dashboard`, where `secrets.token_urlsafe` makes that nonce.
unfoldable pub dashboard :
    DashboardConfig → String → ℕ → Request → AuthManager → DashboardAnswer × AuthManager
unfolding gated
dashboard c nonce now r auth =
    if not c.enabled
    then (not_found, auth)
    else (let (gate, after) = require_scope now r read auth in (gated c nonce gate, after))
