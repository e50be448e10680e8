-- ===== src/System.antt =====
-- The queue, its workers and the caps of the clients in one: `dispatch_fn` of `_enqueue_request` of
-- src/ollama_queue_proxy/main.py takes a slot of its client before it goes upstream, and gives it back
-- at its end. A worker that waits for the slot is one that dispatches, for the queue. A request for
-- metadata is dispatched by its own handler, past the queue, its workers and the caps.
pub mod Tally
pub mod Moves
pub mod Wakes
pub mod Runs
pub mod Caps
use ollama_queue_proxy.Prelude.{
  ℕ, String, Bool, true, false, Option, none, some, List, [], ◌∷◌, ◌++◌, Dict, insert, lookup,
  str_eq, get_elem?, any, ◌==◌, ltb, ◌&&◌, if◌then◌else◌,
}
use ollama_queue_proxy.Priority.{Tier}
use ollama_queue_proxy.Config.{QueueConfig, ApiKeyConfig}
use ollama_queue_proxy.Concurrency.{
  ClientState, Acquired, acquired, waits_for_slot, client_states, get_state, acquire, wake_up,
  release_slot,
}
use ollama_queue_proxy.Queue.Worker.{take, Round, waits, dispatches, dies, Dispatched}
use ollama_queue_proxy.Queue.Steps.{Loop, start, remove_at, can_take, take_turn, complete}
use ollama_queue_proxy.Queue.Steps as Steps

-- How far a dispatch is, with the client that it counts for.
pub data Phase : Type 0 where
  waits_for_cap upstream_of : Option String → Phase

-- `phases` goes with the `running` items of the loop, and `owner` is the `client_id` that a request's
-- `dispatch_fn` has, by its future. `direct` are the clients of the requests for metadata
-- that are being dispatched.
pub record System : Type 0 where
  pub loop : Loop
  pub clients : Dict ClientState
  pub phases : List Phase
  pub owner : ℕ → Option String
  pub direct : List (Option String)

-- `forwards` is the fast path for metadata, and `answers` the end of such a dispatch.
pub data Event : Type 0 where
  submits : Option String → Tier → ℕ → String → ℕ → Event
  takes : ℕ → Event
  goes_on : String → Event
  finishes : ℕ → ℕ → Dispatched → Event
  cancels : ℕ → Event
  pauses resumes flushes : Option Tier → Event
  forwards : Option String → Event
  answers : ℕ → Event

-- `ClientConcurrencyManager(config.auth.keys)`, if some key has a cap; without a manager no client
-- is known.
unfoldable pub concurrency_manager : List ApiKeyConfig → Dict ClientState
unfolding client_states
concurrency_manager keys =
    if any (λ k. ltb 0 k.max_concurrent) keys then client_states [] keys else []

-- What `lifespan` starts.
unfoldable pub boot : QueueConfig → ℕ → List ApiKeyConfig → System
unfolding start concurrency_manager
boot config max_concurrent keys = record {
  loop = start config max_concurrent;
  clients = concurrency_manager keys;
  phases = [];
  owner = λ f. none;
  direct = [];
}

-- `conc_mgr.acquire(client_id, reentries)`, up to its wait: whether the slot is taken.
unfoldable pub acquire_for : ℕ → Option String → Dict ClientState → Acquired × Dict ClientState
unfolding acquire get_state
acquire_for reentries none clients = (acquired, clients)
acquire_for reentries (some c) clients = elim (lookup c clients) [
  | none ↦ (acquired, clients)
  | some s ↦ let (outcome, after) = acquire reentries s in (outcome, insert c after clients)
]

-- `conc_mgr.release(client_id)`
unfoldable pub release_for : Option String → Dict ClientState → Dict ClientState
unfolding release_slot
release_for none clients = clients
release_for (some c) clients = elim (lookup c clients) [
  | none ↦ clients
  | some s ↦ insert c (release_slot s) clients
]

abbrev pub phase_of : Acquired → Option String → Phase
phase_of acquired client = upstream_of client
phase_of waits_for_slot client = waits_for_cap client

-- What the worker does with what it took: no caller of `_enqueue_request` passes `reentries`.
unfoldable pub dispatch : Round → System → System
unfolding acquire_for
dispatch waits s = s
dispatch dies s = s
dispatch (dispatches item) s =
    let client = s.owner item.future in
    let (outcome, after) = acquire_for 0 client s.clients in
    record s { clients = after; phases = s.phases ++ phase_of outcome client ∷ [] }

-- The first dispatch that waits for that client's cap goes on.
unfoldable pub next_upstream : String → List Phase → List Phase
next_upstream c [] = []
next_upstream c (waits_for_cap none ∷ ps) = waits_for_cap none ∷ next_upstream c ps
next_upstream c (waits_for_cap (some d) ∷ ps) =
    let rest = next_upstream c ps in
    if str_eq d c then upstream_of (some d) ∷ ps else waits_for_cap (some d) ∷ rest
next_upstream c (upstream_of o ∷ ps) = upstream_of o ∷ next_upstream c ps

-- A waiter can go on.
abbrev pub can_go_on : ClientState → Bool
can_go_on s = elim s.semaphore [ none ↦ false | some value ↦ ltb 0 value && ltb 0 s.waiters ]

unfoldable pub go_on : String → System → System
unfolding wake_up next_upstream
go_on c s = elim (lookup c s.clients) [
  | none ↦ s
  | some state ↦
      if can_go_on state
      then record s {
        clients = insert c (wake_up state) s.clients;
        phases = next_upstream c s.phases;
      }
      else s
]

-- A dispatch ends, where it has come upstream.
unfoldable pub end_dispatch : ℕ → ℕ → Dispatched → System → System
unfolding release_for complete
end_dispatch now i d s = elim (get_elem? s.phases i) [
  | none ↦ s
  | some (waits_for_cap client) ↦ s
  | some (upstream_of client) ↦ record s {
    loop = complete now i d s.loop;
    clients = release_for client s.clients;
    phases = remove_at i s.phases;
  }
]

abbrev pub owned : ℕ → Option String → (ℕ → Option String) → ℕ → Option String
owned f client owner g = if f == g then client else owner g

-- The fast path: `dispatch_request` for a path in `_METADATA_FAST_PATH`, with no queue and no slot.
unfoldable pub dispatch_direct : Option String → System → System
dispatch_direct client s = record s { direct = s.direct ++ client ∷ [] }

unfoldable pub end_direct : ℕ → System → System
end_direct i s = record s { direct = remove_at i s.direct }

unfoldable pub step : Event → System → System
unfolding dispatch go_on end_dispatch dispatch_direct end_direct
step (submits client tier now request_id nbytes) s = record s {
  loop = Steps.step (Steps.submits tier now request_id nbytes) s.loop;
  owner = owned s.loop.next_future client s.owner;
}
step (takes now) s =
    if can_take s.loop
    then dispatch (take now s.loop.manager).0 (record s { loop = take_turn now s.loop })
    else s
step (goes_on c) s = go_on c s
step (finishes now i d) s = end_dispatch now i d s
step (cancels f) s = record s { loop = Steps.step (Steps.cancels f) s.loop }
step (pauses t) s = record s { loop = Steps.step (Steps.pauses t) s.loop }
step (resumes t) s = record s { loop = Steps.step (Steps.resumes t) s.loop }
step (flushes t) s = record s { loop = Steps.step (Steps.flushes t) s.loop }
step (forwards client) s = dispatch_direct client s
step (answers i) s = end_direct i s

unfoldable pub run : List Event → System → System
unfolding step
run [] s = s
run (e ∷ rest) s = run rest (step e s)
