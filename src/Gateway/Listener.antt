-- ===== src/Gateway/Listener.antt =====
-- The application of an injection listener, `make_injection_app` of
-- src/ollama_queue_proxy/injection.py: its handler on the state that `lifespan` shares with it, which
-- is none before the proxy is ready and after its end.
use ollama_queue_proxy.Prelude.{
  ℕ, ◌≡◌, refl, String, Bool, true, false, Option, none, some, List, Dict, Bool-cases, inl, inr,
  arith,
}
use ollama_queue_proxy.Http.{Request}
use ollama_queue_proxy.Priority.{priority_order}
use ollama_queue_proxy.Scope.{inference, allows}
use ollama_queue_proxy.Config.{ApiKeyConfig}
use ollama_queue_proxy.Body.{Field, Loaded}
use ollama_queue_proxy.Gateway.{AppState, Intake}
use ollama_queue_proxy.Gateway.Handlers.{injection_handler}
use ollama_queue_proxy.Gateway.Entitled.{reaches, tier_at_most, injection_handler_entitled}

-- An error whose body does not name the request, or what the handler does with a state.
pub data Listened : Type 0 where
  unready : (status_code : ℕ) → (error : String) → Listened
  passed_on : Intake → Listened

abbrev pub passes : Listened → Bool
passes (unready status_code error) = false
passes (passed_on i) = reaches i

abbrev pub capped : ℕ → Listened → Bool
capped limit (unready status_code error) = true
capped limit (passed_on i) = tier_at_most limit i

module _ (int : String → Option ℕ) (loads : List ℕ → Loaded) (dumps : Dict Field → List ℕ) where
  unfoldable pub listen :
      (inject_as : String) (key_cfg : ApiKeyConfig) (now : ℕ) (r : Request) (chunks : List (List ℕ))
      (shared : Option AppState)
      → Listened × Option AppState
  listen inject_as key_cfg now r chunks none =
      (unready 503 "proxy is starting up, retry shortly", none)
  listen inject_as key_cfg now r chunks (some s) =
      let (intake, after) = injection_handler int loads dumps inject_as key_cfg now r chunks s in
      (passed_on intake, some after)

  -- A shutdown turns every request away.
  shutdown-reaches :
      (inject_as : String) (cfg : ApiKeyConfig) (now : ℕ) (r : Request) (chunks : List (List ℕ))
      (s : AppState)
      → s.shutting_down ≡ true
      → reaches (injection_handler int loads dumps inject_as cfg now r chunks s).0 ≡ false
  unfolding injection_handler reaches
  shutdown-reaches inject_as cfg now r chunks s down = ground (arith, down)

  -- A request to an injection listener reaches upstream, at once or through the queue, only while the
  -- proxy shares its state and is not shutting down, and only if the scope of the listener's key allows
  -- inference; and if it is queued, then at a tier that is at most the key's maximum.
  pub listen_entitled :
      (inject_as : String) (cfg : ApiKeyConfig) (now : ℕ) (r : Request) (chunks : List (List ℕ))
      (shared : Option AppState)
      → passes (listen inject_as cfg now r chunks shared).0 ≡ true
      → ((s : AppState) × (shared ≡ some s) × (s.shutting_down ≡ false))
        × (allows cfg.scope inference ≡ true)
        × (capped (priority_order cfg.max_priority) (listen inject_as cfg now r chunks shared).0
            ≡ true)
  unfolding listen
  listen_entitled inject_as cfg now r chunks none p = cc
  listen_entitled inject_as cfg now r chunks (some s) p = elim (Bool-cases s.shutting_down) [
    | inl down ↦ cc (p, shutdown-reaches inject_as cfg now r chunks s down)
    | inr up ↦
        (let (allowed, bounded) =
            injection_handler_entitled int loads dumps inject_as cfg now r chunks s p in
          ((s, refl, up), allowed, bounded))
  ]
