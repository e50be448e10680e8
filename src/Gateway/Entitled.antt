-- ===== src/Gateway/Entitled.antt =====
-- What it takes for a request to get past the handlers.
use ollama_queue_proxy.Prelude.{
  ℕ, ◌+◌, ◌≤◌, ◌≡◌, ◌≢◌, refl, sym, subst, contains, String, Bool, true, false, Option, none, some,
  List, Dict, arith, leb, if◌then◌else◌,
}
use ollama_queue_proxy.Http.{Request, header, ErrorResponse}
use ollama_queue_proxy.Priority.{Tier, priority_order, tier_name, parse_priority, injection_tier}
use ollama_queue_proxy.Priority.Ceiling.{
  enforce_priority_ceiling_exact, injection_tier-enforce_priority_ceiling,
}
use ollama_queue_proxy.Auth.Gate.{authenticate-closed}
use ollama_queue_proxy.Scope.{inference, allows}
use ollama_queue_proxy.Config.{ApiKeyConfig}
use ollama_queue_proxy.Auth.{
  Verdict, key, returns, authenticate, open_access, denied, raises_type_error, Outcome,
}
use ollama_queue_proxy.Body.{Field, Loaded, Body, body, too_large, read_body}
use ollama_queue_proxy.Queue.State.{QueueItem}
use ollama_queue_proxy.Queue.Enqueue.{
  Enqueued, position, queue_paused, queue_full, queue_over_capacity, zero_division, enqueue,
}
use ollama_queue_proxy.Gateway.{
  AppState, Intake, answered, crashed, forwarded, queued, enqueue_request, with_body, after_enqueue,
  submit, may_infer, path_of, metadata_fast_path, item_for,
}
use ollama_queue_proxy.Gateway.Handlers.{tier_for, proxy_handler, after_auth, injection_handler}

-- The request is to reach upstream: at once, or through the queue.
unfoldable pub reaches : Intake → Bool
reaches (answered e) = false
reaches crashed = false
reaches (forwarded p b) = true
reaches (queued n item p b) = true

-- The tier at which it waits is at most `limit`.
pub tier_at_most : ℕ → Intake → Bool
tier_at_most limit (queued n item p b) = leb (priority_order item.tier) limit
tier_at_most limit _ = true

leb_self : (n : ℕ) → leb n n ≡ true
leb_self n = ground arith

after_enqueue-tier :
    (r : Request) (client : Option String) (item : QueueItem) (path : String) (b : List ℕ)
    (o : Enqueued) (s : AppState)
    → tier_at_most (priority_order item.tier) (after_enqueue r client item path b o s).0 ≡ true
unfolding after_enqueue tier_at_most
after_enqueue-tier r client item path b (position n) s = leb_self (priority_order item.tier)
after_enqueue-tier r client item path b (queue_full t code) s = refl
after_enqueue-tier r client item path b (queue_over_capacity t code) s = refl
after_enqueue-tier r client item path b (queue_paused t) s = refl
after_enqueue-tier r client item path b zero_division s = refl

submit-tier :
    (r : Request) (client : Option String) (item : QueueItem) (path : String) (b : List ℕ)
    (s : AppState)
    → tier_at_most (priority_order item.tier) (submit r client item path b s).0 ≡ true
unfolding submit
submit-tier r client item path b s =
    after_enqueue-tier r client item path b (enqueue item s.queue_manager).0 (record s {
      queue_manager = (enqueue item s.queue_manager).1;
      next_future = s.next_future + 1;
    })

if-tier :
    (limit : ℕ) (c : Bool) (x y : Intake × AppState)
    → tier_at_most limit x.0 ≡ true
    → tier_at_most limit y.0 ≡ true
    → tier_at_most limit (if c then x else y).0 ≡ true
if-tier limit true x y p q = p
if-tier limit false x y p q = q

-- A smaller tier is within a larger limit.
tier_at_most_mono :
    (a b : ℕ) (i : Intake) → a ≤ b → tier_at_most a i ≡ true → tier_at_most b i ≡ true
unfolding tier_at_most
tier_at_most_mono a b (answered e) h p = refl
tier_at_most_mono a b crashed h p = refl
tier_at_most_mono a b (forwarded path bytes) h p = refl
tier_at_most_mono a b (queued n item path bytes) h p = ground arith

tier_for-ceiling :
    (r : Request) (cfg : ApiKeyConfig)
    → priority_order (tier_for r (some cfg)) ≤ priority_order cfg.max_priority
unfolding tier_for
tier_for-ceiling r cfg =
    (enforce_priority_ceiling_exact (tier_name (parse_priority (header r "x-queue-priority")))
      cfg.max_priority).0

injection_tier-ceiling :
    (value : Option String) (max_priority : Tier)
    → priority_order (injection_tier value max_priority) ≤ priority_order max_priority
injection_tier-ceiling value max_priority =
    subst (λ t. priority_order t ≤ priority_order max_priority)
      (sym (injection_tier-enforce_priority_ceiling value max_priority))
      (enforce_priority_ceiling_exact (tier_name (parse_priority value)) max_priority).0

-- Past the test on `shutting_down`.
unless_down :
    (P : Intake → Type 0) (c : Bool) (e : ErrorResponse) (s : AppState) (y : Intake × AppState)
    → (reaches y.0 ≡ true → P y.0)
    → reaches (if c then (answered e, s) else y).0 ≡ true
    → P (if c then (answered e, s) else y).0
unfolding reaches
unless_down P true e s y k p = cc
unless_down P false e s y k p = k p

module _ (int : String → Option ℕ) (loads : List ℕ → Loaded) (dumps : Dict Field → List ℕ) where
  with_body-tier :
      (now : ℕ) (r : Request) (client : Option String) (tier : Tier) (path : String) (b : Body)
      (s : AppState)
      → tier_at_most (priority_order tier) (with_body int loads dumps now r client tier path b s).0
        ≡ true
  unfolding with_body tier_at_most item_for
  with_body-tier now r client tier path (too_large e) s = refl
  with_body-tier now r client tier path (body b) s =
      if-tier (priority_order tier) (contains metadata_fast_path path) (forwarded path b, s) _ refl
        (submit-tier r client _ path _ s)

  -- What holds of a request of `cfg` that asks for `tier`.
  enqueue_request-entitled :
      (now : ℕ) (r : Request) (chunks : List (List ℕ)) (client : Option String) (tier : Tier)
      (path : Option String) (cfg : ApiKeyConfig) (s : AppState)
      → priority_order tier ≤ priority_order cfg.max_priority
      → reaches (enqueue_request int loads dumps now r chunks client tier path (some cfg) s).0
        ≡ true
      → (allows cfg.scope inference ≡ true)
        × (tier_at_most
              (priority_order cfg.max_priority)
              (enqueue_request int loads dumps now r chunks client tier path (some cfg) s).0
            ≡ true)
  unfolding enqueue_request may_infer reaches tier_at_most
  enqueue_request-entitled now r chunks client tier path cfg s h p = (
    ground arith,
    if-tier (priority_order cfg.max_priority) (allows cfg.scope inference) _ _
        (tier_at_most_mono (priority_order tier) (priority_order cfg.max_priority) _ h (
          with_body-tier now r client tier (path_of r path)
            (read_body int s.max_request_body_mb r chunks) s))
        refl,
  )

  after_auth-entitled :
      (now : ℕ) (r : Request) (chunks : List (List ℕ)) (v : Outcome Verdict) (s : AppState)
      → v ≢ returns open_access
      → reaches (after_auth int loads dumps now r chunks v s).0 ≡ true
      → (cfg : ApiKeyConfig) × (v ≡ returns (key cfg))
        × (allows cfg.scope inference ≡ true)
        × (tier_at_most
              (priority_order cfg.max_priority)
              (after_auth int loads dumps now r chunks v s).0
            ≡ true)
  unfolding after_auth reaches
  after_auth-entitled now r chunks (returns open_access) s closed p = elim (closed refl) [ ]
  after_auth-entitled now r chunks (returns (denied e)) s closed p = cc
  after_auth-entitled now r chunks raises_type_error s closed p = cc
  after_auth-entitled now r chunks (returns (key cfg)) s closed p =
      let (allowed, bounded) =
        enqueue_request-entitled now r chunks _ _ _ cfg s (tier_for-ceiling r cfg) p in
      (cfg, refl, allowed, bounded)

  -- With authentication on, a request to the main port reaches upstream, at once or through the queue,
  -- only if it is authenticated as a key whose scope allows inference; and if it is queued, then at a
  -- tier that is at most the key's maximum.
  pub proxy_handler_entitled :
      (now : ℕ) (r : Request) (chunks : List (List ℕ)) (s : AppState)
      → s.auth_manager.config.enabled ≡ true
      → reaches (proxy_handler int loads dumps now r chunks s).0 ≡ true
      → (cfg : ApiKeyConfig) × ((authenticate now r s.auth_manager).0 ≡ returns (key cfg))
        × (allows cfg.scope inference ≡ true)
        × (tier_at_most
              (priority_order cfg.max_priority)
              (proxy_handler int loads dumps now r chunks s).0
            ≡ true)
  unfolding proxy_handler
  proxy_handler_entitled now r chunks s on =
      let (v, auth) = authenticate now r s.auth_manager in
      unless_down
        (λ i.
          (cfg : ApiKeyConfig) × (v ≡ returns (key cfg))
          × (allows cfg.scope inference ≡ true)
          × (tier_at_most (priority_order cfg.max_priority) i ≡ true))
        s.shutting_down _ s _
        (after_auth-entitled now r chunks v (record s { auth_manager = auth })
          (authenticate-closed now r s.auth_manager on))

  -- A request to an injection listener reaches upstream, at once or through the queue, only if the
  -- scope of the listener's key allows inference; and if it is queued, then at a tier that is at most
  -- the key's maximum.
  pub injection_handler_entitled :
      (inject_as : String) (cfg : ApiKeyConfig) (now : ℕ) (r : Request) (chunks : List (List ℕ))
      (s : AppState)
      → reaches (injection_handler int loads dumps inject_as cfg now r chunks s).0 ≡ true
      → (allows cfg.scope inference ≡ true)
        × (tier_at_most
              (priority_order cfg.max_priority)
              (injection_handler int loads dumps inject_as cfg now r chunks s).0
            ≡ true)
  unfolding injection_handler
  injection_handler_entitled inject_as cfg now r chunks s =
      let tier = injection_tier (header r "x-queue-priority") cfg.max_priority in
      unless_down
        (λ i.
          (allows cfg.scope inference ≡ true)
          × (tier_at_most (priority_order cfg.max_priority) i ≡ true))
        s.shutting_down _ s _
        (enqueue_request-entitled now r chunks (some inject_as) tier none cfg s
          (injection_tier-ceiling (header r "x-queue-priority") cfg.max_priority))
