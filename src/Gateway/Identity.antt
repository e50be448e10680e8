-- ===== src/Gateway/Identity.antt =====
-- What a handler of src/ollama_queue_proxy/main.py answers or enqueues names its request.
use ollama_queue_proxy.Prelude.{
  ℕ, ◌<◌, ◌≡◌, ◌≢◌, refl, arith, String, Bool, true, false, Option, none, some, List, Dict,
  contains, if◌then◌else◌,
}
use ollama_queue_proxy.Http.{Request}
use ollama_queue_proxy.Priority.{Tier}
use ollama_queue_proxy.Scope.{inference}
use ollama_queue_proxy.Config.{ApiKeyConfig}
use ollama_queue_proxy.Auth.{
  Outcome, returns, raises_type_error, Verdict, open_access, key, denied, authenticate,
}
use ollama_queue_proxy.Auth.Identity.{
  DeniedCarries, authenticate-DeniedCarries, request_id-scope_denied,
}
use ollama_queue_proxy.Body.{Body, body, too_large, read_body, Field, Loaded}
use ollama_queue_proxy.Body.Identity.{LargeCarries, read_body-LargeCarries}
use ollama_queue_proxy.Queue.State.{Manager, QueueItem, tier_config}
use ollama_queue_proxy.Queue.Enqueue.{
  Enqueued, position, queue_paused, queue_full, queue_over_capacity, zero_division, enqueue,
}
use ollama_queue_proxy.Gateway.{
  AppState, Intake, answered, crashed, forwarded, queued, after_enqueue, submit, with_body,
  queue_error, paused_error, enqueue_request, may_infer, path_of, metadata_fast_path, item_for,
}
use ollama_queue_proxy.Gateway.Handlers.{
  proxy_handler, after_auth, get_client_id, tier_for, rewrite_path, shutting_down_error,
}

-- No tier has a depth of 0.
abbrev pub IsDeep : Manager → Type 0
IsDeep m = (t : Tier) → 0 < (tier_config m.config t).max_depth

-- An error answer names the request, and so does an item in the queue; and there is no exception.
abbrev pub Carries : String → Intake → Type 0
Carries id (answered e) = e.request_id ≡ id
Carries id crashed = ⊥
Carries id (forwarded p b) = Unit
Carries id (queued n item p b) = item.request_id ≡ id

enqueue-zero_division :
    (item : QueueItem) (m : Manager) → IsDeep m → (enqueue item m).0 ≢ zero_division
unfolding enqueue
enqueue-zero_division item m deep = ground (arith, deep item.tier)

after_enqueue-Carries :
    (r : Request) (client : Option String) (item : QueueItem) (path : String) (b : List ℕ)
    (o : Enqueued) (s : AppState)
    → item.request_id ≡ r.request_id
    → o ≢ zero_division
    → Carries r.request_id (after_enqueue r client item path b o s).0
unfolding after_enqueue queue_error paused_error
after_enqueue-Carries r client item path b (position n) s e d = e
after_enqueue-Carries r client item path b (queue_full t code) s e d = refl
after_enqueue-Carries r client item path b (queue_over_capacity t code) s e d = refl
after_enqueue-Carries r client item path b (queue_paused t) s e d = refl
after_enqueue-Carries r client item path b zero_division s e d = d refl

if-Carries :
    (id : String) (c : Bool) (x y : Intake × AppState)
    → Carries id x.0
    → Carries id y.0
    → Carries id (if c then x else y).0
if-Carries id true x y p q = p
if-Carries id false x y p q = q

module _ (int : String → Option ℕ) (loads : List ℕ → Loaded) (dumps : Dict Field → List ℕ) where
  with_body-Carries :
      (now : ℕ) (r : Request) (client : Option String) (tier : Tier) (path : String) (b : Body)
      (s : AppState)
      → LargeCarries r.request_id b
      → IsDeep s.queue_manager
      → Carries r.request_id (with_body int loads dumps now r client tier path b s).0
  unfolding with_body submit item_for
  with_body-Carries now r client tier path (too_large e) s h deep = h
  with_body-Carries now r client tier path (body b) s h deep =
      if-Carries r.request_id (contains metadata_fast_path path) (forwarded path b, s) _ tt
        (after_enqueue-Carries r client _ path _ _ _ refl
          (enqueue-zero_division _ s.queue_manager deep))

  enqueue_request-Carries :
      (now : ℕ) (r : Request) (chunks : List (List ℕ)) (client : Option String) (tier : Tier)
      (path : Option String) (k : Option ApiKeyConfig) (s : AppState)
      → IsDeep s.queue_manager
      → Carries r.request_id (enqueue_request int loads dumps now r chunks client tier path k s).0
  unfolding enqueue_request
  enqueue_request-Carries now r chunks client tier path k s deep =
      if-Carries r.request_id (may_infer k) _ _
        (with_body-Carries now r client tier (path_of r path)
          (read_body int s.max_request_body_mb r chunks) s
          (read_body-LargeCarries int s.max_request_body_mb r chunks) deep)
        (request_id-scope_denied r inference)

  after_auth-Carries :
      (now : ℕ) (r : Request) (chunks : List (List ℕ)) (v : Outcome Verdict) (s : AppState)
      → DeniedCarries r.request_id v
      → v ≢ raises_type_error
      → IsDeep s.queue_manager
      → Carries r.request_id (after_auth int loads dumps now r chunks v s).0
  unfolding after_auth
  after_auth-Carries now r chunks (returns open_access) s d calm deep =
      enqueue_request-Carries now r chunks (get_client_id r) (tier_for r none) (rewrite_path r.path)
        none s deep
  after_auth-Carries now r chunks (returns (key c)) s d calm deep =
      enqueue_request-Carries now r chunks (some c.client_id) (tier_for r (some c))
        (rewrite_path r.path) (some c) s deep
  after_auth-Carries now r chunks (returns (denied e)) s d calm deep = d
  after_auth-Carries now r chunks raises_type_error s d calm deep = calm refl

  pub proxy_handler-Carries :
      (now : ℕ) (r : Request) (chunks : List (List ℕ)) (s : AppState)
      → (authenticate now r s.auth_manager).0 ≢ raises_type_error
      → IsDeep s.queue_manager
      → Carries r.request_id (proxy_handler int loads dumps now r chunks s).0
  unfolding proxy_handler shutting_down_error
  proxy_handler-Carries now r chunks s calm deep =
      if-Carries r.request_id s.shutting_down _ _ refl (
        after_auth-Carries now r chunks (authenticate now r s.auth_manager).0
          (record s { auth_manager = (authenticate now r s.auth_manager).1 })
          (authenticate-DeniedCarries now r s.auth_manager) calm deep)
