-- ===== src/Admin/Gate.antt =====
-- Who may control the queues of src/ollama_queue_proxy/routes/queue.py, and what is disclosed to
-- others.
use ollama_queue_proxy.Prelude.{
  ℕ, ◌≡◌, ◌≢◌, refl, ap, inl, inr, String, Bool, true, false, Option, none, some, List, [],
}
use ollama_queue_proxy.Http.{Request, ErrorResponse}
use ollama_queue_proxy.Scope.{management, allows}
use ollama_queue_proxy.Config.{ApiKeyConfig}
use ollama_queue_proxy.Auth.{
  AuthManager, Outcome, returns, raises_type_error, key, authenticate, require_scope,
}
use ollama_queue_proxy.Auth.Gate.{require_scope_exact}
use ollama_queue_proxy.Queue.State.{Manager}
use ollama_queue_proxy.Admin.{
  Control, ControlAnswer, refused, controlled, crashed, authorized, queue_control, all_drained,
  still_waits, drain_authorized, queue_drain,
}

pub is_controlled : ControlAnswer → Bool
is_controlled (controlled a) = true
is_controlled (refused e) = false
is_controlled crashed = false

unauthorized-closed :
    (now : ℕ) (r : Request) (auth : AuthManager)
    → auth.config.enabled ≡ true
    → ((cfg : ApiKeyConfig)
        → (authenticate now r auth).0 ≡ returns (key cfg)
        → allows cfg.scope management ≡ false)
    → (require_scope now r management auth).0 ≢ returns none
unauthorized-closed now r auth on others passes =
    elim ((require_scope_exact now r management auth).0.0 passes) [
      | inl off ↦ cc
      | inr (cfg, is_key, allowed) ↦ (let refuted = others cfg is_key in cc)
    ]

-- A caller that is not allowed in gets the same of a drain whatever the queues are.
drain-refused :
    (gate : Outcome (Option ErrorResponse)) (looks : List Manager)
    → gate ≢ returns none
    → (drain_authorized gate looks ≡ drain_authorized gate [])
      × (drain_authorized gate looks ≢ all_drained)
      × (drain_authorized gate looks ≢ still_waits)
unfolding drain_authorized
drain-refused (returns none) looks closed = elim (closed refl) [ ]
drain-refused (returns (some e)) looks closed = (refl, λ x. cc, λ x. cc)
drain-refused raises_type_error looks closed = (refl, λ x. cc, λ x. cc)

module _ (repr : String → String) where
  authorized-refused :
      (control : Control) (r : Request) (tier : Option String)
      (gate : Outcome (Option ErrorResponse)) (m : Manager)
      → gate ≢ returns none
      → ((authorized repr control r tier gate m).1 ≡ m)
        × (is_controlled (authorized repr control r tier gate m).0 ≡ false)
        × ((other : Option String)
            → authorized repr control r other gate m ≡ authorized repr control r tier gate m)
  unfolding authorized is_controlled
  authorized-refused control r tier (returns none) m closed = elim (closed refl) [ ]
  authorized-refused control r tier (returns (some e)) m closed = (refl, refl, λ other. refl)
  authorized-refused control r tier raises_type_error m closed = (refl, refl, λ other. refl)

  -- With authentication on, a caller that is not authenticated as a key whose scope allows management
  -- leaves the queues as they are and gets no control's answer; what it gets does not depend
  -- on the tier that it names, valid or not; and what it gets of a drain does not depend on the queues,
  -- at however many looks, and is neither "drained" nor a wait.
  pub queue_control_gated :
      (control : Control) (now : ℕ) (r : Request) (tier : Option String) (auth : AuthManager)
      (m : Manager) (looks : List Manager)
      → auth.config.enabled ≡ true
      → ((cfg : ApiKeyConfig)
          → (authenticate now r auth).0 ≡ returns (key cfg)
          → allows cfg.scope management ≡ false)
      → ((queue_control repr control now r tier auth m).2 ≡ m)
        × (is_controlled (queue_control repr control now r tier auth m).0 ≡ false)
        × ((other : Option String)
            → queue_control repr control now r other auth m
              ≡ queue_control repr control now r tier auth m)
        × (((queue_drain now r auth looks).0 ≡ (queue_drain now r auth []).0)
            × ((queue_drain now r auth looks).0 ≢ all_drained)
            × ((queue_drain now r auth looks).0 ≢ still_waits))
  unfolding queue_control queue_drain
  queue_control_gated control now r tier auth m looks on others =
      let gate = (require_scope now r management auth).0 in
      let (kept, none_done, same) =
        authorized-refused control r tier gate m (unauthorized-closed now r auth on others) in
      (
        kept,
        none_done,
        λ other. ap (λ a. (a.0, (require_scope now r management auth).1, a.1)) (same other),
        drain-refused gate looks (unauthorized-closed now r auth on others),
      )
