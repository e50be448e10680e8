-- ===== src/Gateway/Refused.antt =====
-- Requests that are answered at once, and the queues.
use ollama_queue_proxy.Prelude.{
  ℕ, ◌+◌, ◌≡◌, refl, String, Bool, true, false, Option, none, some, List, arith, if◌then◌else◌,
  contains,
}
use ollama_queue_proxy.Http.{Request, ErrorResponse}
use ollama_queue_proxy.Priority.{Tier}
use ollama_queue_proxy.Config.{ApiKeyConfig}
use ollama_queue_proxy.Auth.{
  Outcome, returns, raises_type_error, Verdict, open_access, key, denied, authenticate,
}
use ollama_queue_proxy.Body.{Body, body, too_large, read_body, Field, Loaded}
use ollama_queue_proxy.Prelude.{Dict}
use ollama_queue_proxy.Queue.State.{Manager, QueueItem}
use ollama_queue_proxy.Queue.Enqueue.{
  Enqueued, position, queue_paused, queue_full, queue_over_capacity, zero_division, enqueue,
}
use ollama_queue_proxy.Gateway.{
  AppState, Intake, answered, crashed, forwarded, queued, after_enqueue, submit, with_body,
  enqueue_request, may_infer, path_of, metadata_fast_path,
}
use ollama_queue_proxy.Gateway.Handlers.{
  proxy_handler, after_auth, get_client_id, tier_for, rewrite_path,
}

-- The queues and the count of their bytes are as before.
pub QueuesKept : Manager → Manager → Type 0
QueuesKept before after =
    (after.queues ≡ before.queues) × (after.queued_bytes ≡ before.queued_bytes)

-- A run that ends in an answer keeps the queues of `m`.
KeptIfAnswered : Manager → Intake × AppState → Type 0
KeptIfAnswered m (answered e, s) = QueuesKept m s.queue_manager
KeptIfAnswered m (crashed, s) = QueuesKept m m
KeptIfAnswered m (forwarded p b, s) = QueuesKept m m
KeptIfAnswered m (queued n item p b, s) = QueuesKept m m

-- An outcome of `enqueue` that is an exception with an answer of its own.
is_refusal : Enqueued → Bool
is_refusal (position n) = false
is_refusal zero_division = false
is_refusal (queue_paused t) = true
is_refusal (queue_full t c) = true
is_refusal (queue_over_capacity t c) = true

enqueue-refused :
    (item : QueueItem) (m : Manager)
    → is_refusal (enqueue item m).0 ≡ true
    → QueuesKept m (enqueue item m).1
unfolding enqueue is_refusal QueuesKept
enqueue-refused item m p = ground arith

after_enqueue-kept :
    (r : Request) (client : Option String) (item : QueueItem) (path : String) (b : List ℕ)
    (o : Enqueued) (s : AppState) (m : Manager)
    → (is_refusal o ≡ true → QueuesKept m s.queue_manager)
    → KeptIfAnswered m (after_enqueue r client item path b o s)
unfolding after_enqueue KeptIfAnswered is_refusal QueuesKept
after_enqueue-kept r client item path b (position n) s m k = (refl, refl)
after_enqueue-kept r client item path b (queue_full t code) s m k = k refl
after_enqueue-kept r client item path b (queue_over_capacity t code) s m k = k refl
after_enqueue-kept r client item path b (queue_paused t) s m k = k refl
after_enqueue-kept r client item path b zero_division s m k = (refl, refl)

submit-kept :
    (r : Request) (client : Option String) (item : QueueItem) (path : String) (b : List ℕ)
    (s : AppState)
    → KeptIfAnswered s.queue_manager (submit r client item path b s)
unfolding submit
submit-kept r client item path b s =
    after_enqueue-kept r client item path b (enqueue item s.queue_manager).0
      (record s {
        queue_manager = (enqueue item s.queue_manager).1;
        next_future = s.next_future + 1;
      })
      s.queue_manager (enqueue-refused item s.queue_manager)

if-kept :
    (m : Manager) (c : Bool) (x y : Intake × AppState)
    → KeptIfAnswered m x
    → KeptIfAnswered m y
    → KeptIfAnswered m (if c then x else y)
if-kept m true x y p q = p
if-kept m false x y p q = q

module _ (int : String → Option ℕ) (loads : List ℕ → Loaded) (dumps : Dict Field → List ℕ) where
  with_body-kept :
      (now : ℕ) (r : Request) (client : Option String) (tier : Tier) (path : String) (b : Body)
      (s : AppState)
      → KeptIfAnswered s.queue_manager (with_body int loads dumps now r client tier path b s)
  unfolding with_body KeptIfAnswered QueuesKept
  with_body-kept now r client tier path (too_large e) s = (refl, refl)
  with_body-kept now r client tier path (body b) s =
      if-kept s.queue_manager (contains metadata_fast_path path) (forwarded path b, s) _
        (refl, refl) (submit-kept r client _ path _ s)

  enqueue_request-kept :
      (now : ℕ) (r : Request) (chunks : List (List ℕ)) (client : Option String) (tier : Tier)
      (path : Option String) (k : Option ApiKeyConfig) (s : AppState)
      → KeptIfAnswered s.queue_manager
          (enqueue_request int loads dumps now r chunks client tier path k s)
  unfolding enqueue_request KeptIfAnswered QueuesKept
  enqueue_request-kept now r chunks client tier path k s =
      if-kept s.queue_manager (may_infer k) _ _
        (with_body-kept now r client tier (path_of r path)
          (read_body int s.max_request_body_mb r chunks) s)
        (refl, refl)

  after_auth-kept :
      (now : ℕ) (r : Request) (chunks : List (List ℕ)) (v : Outcome Verdict) (s : AppState)
      → KeptIfAnswered s.queue_manager (after_auth int loads dumps now r chunks v s)
  unfolding after_auth KeptIfAnswered QueuesKept
  after_auth-kept now r chunks (returns open_access) s =
      enqueue_request-kept now r chunks (get_client_id r) (tier_for r none) (rewrite_path r.path)
        none s
  after_auth-kept now r chunks (returns (key c)) s =
      enqueue_request-kept now r chunks (some c.client_id) (tier_for r (some c))
        (rewrite_path r.path) (some c) s
  after_auth-kept now r chunks (returns (denied e)) s = (refl, refl)
  after_auth-kept now r chunks raises_type_error s = (refl, refl)

  proxy_handler-kept :
      (now : ℕ) (r : Request) (chunks : List (List ℕ)) (s : AppState)
      → KeptIfAnswered s.queue_manager (proxy_handler int loads dumps now r chunks s)
  unfolding proxy_handler KeptIfAnswered QueuesKept
  proxy_handler-kept now r chunks s =
      let (v, auth) = authenticate now r s.auth_manager in
      if-kept s.queue_manager s.shutting_down _ _ (refl, refl)
        (after_auth-kept now r chunks v (record s { auth_manager = auth }))

  kept-answered :
      (m : Manager) (i : Intake) (s : AppState) (e : ErrorResponse)
      → KeptIfAnswered m (i, s)
      → i ≡ answered e
      → QueuesKept m s.queue_manager
  unfolding KeptIfAnswered
  kept-answered m (answered x) s e k p = k
  kept-answered m crashed s e k p = cc
  kept-answered m (forwarded path b) s e k p = cc
  kept-answered m (queued n item path b) s e k p = cc

  -- A request to the main port that is answered at once with an error, for whatever reason, leaves the
  -- queues and the count of the bytes in them as they were.
  pub proxy_handler_refused :
      (now : ℕ) (r : Request) (chunks : List (List ℕ)) (s : AppState) (e : ErrorResponse)
      → (proxy_handler int loads dumps now r chunks s).0 ≡ answered e
      → QueuesKept s.queue_manager (proxy_handler int loads dumps now r chunks s).1.queue_manager
  proxy_handler_refused now r chunks s e =
      let result = proxy_handler int loads dumps now r chunks s in
      kept-answered s.queue_manager result.0 result.1 e (proxy_handler-kept now r chunks s)
