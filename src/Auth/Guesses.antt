-- ===== src/Auth/Guesses.antt =====
-- A guessing attack on the keys: many requests from one address, among those of others.
use ollama_queue_proxy.Prelude.{
  ℕ, ◌+◌, ◌≤◌, ◌<◌, ◌≡◌, String, true, ◌&&◌, List, [], ◌∷◌, Dict, str_eq, if◌then◌else◌,
}
use ollama_queue_proxy.Http.{Request}
use ollama_queue_proxy.Config.{ApiKeyConfig}
use ollama_queue_proxy.Auth.{AuthManager, authenticate, client_ip}
use ollama_queue_proxy.Auth.Limit.{wrong, is_401}

-- How many of the requests from `ip` are answered 401, that is, had a credential checked and found
-- missing or wrong.
unfoldable pub checked_guesses : String → List (ℕ × Request) → AuthManager → ℕ
checked_guesses ip [] m = 0
checked_guesses ip ((now, r) ∷ rest) m =
    let (verdict, after) = authenticate now r m in
    (if str_eq (client_ip r) ip && is_401 verdict then 1 else 0) + checked_guesses ip rest after

-- A request within the window, without a valid key if it comes from `ip`.
abbrev pub IsGuess : String → ℕ → ℕ → Dict ApiKeyConfig → ℕ × Request → Type 0
IsGuess ip start window keys (now, r) =
    (start ≤ now) × (now < start + window) × (client_ip r ≡ ip → wrong keys r ≡ true)
