-- ===== src/Queue/Steps.antt =====
-- The event loop around the queue manager: requests and controls arrive, workers take their turns,
-- dispatches end and callers go away, in any order. One action is one run between two awaits.
use ollama_queue_proxy.Prelude.{
  ℕ, suc, ◌+◌, ◌-◌, String, Bool, ◌&&◌, List, [], ◌∷◌, ◌++◌, ltb, if◌then◌else◌, Option, none, some,
  get_elem?, zero,
}
use ollama_queue_proxy.Priority.{Tier}
use ollama_queue_proxy.Config.{QueueConfig}
use ollama_queue_proxy.Queue.State.{Manager, QueueItem, cancelled, is_pending, settle, init}
use ollama_queue_proxy.Queue.Enqueue.{enqueue}
use ollama_queue_proxy.Queue.Worker.{take, finish, Round, waits, dispatches, dies, Dispatched}
use ollama_queue_proxy.Queue.Control.{pause, resume, flush}

-- `idle` counts the workers at the head of their loop, `running` holds the items that are being
-- dispatched, and `next_future` is the identity of the next future that is created.
pub record Loop : Type 0 where
  pub manager : Manager
  pub open manager use *
  pub idle : ℕ
  pub running : List QueueItem
  pub next_future : ℕ

pub data Action : Type 0 where
  submits : Tier → ℕ → String → ℕ → Action
  takes : ℕ → Action
  finishes : ℕ → ℕ → Dispatched → Action
  cancels : ℕ → Action
  pauses resumes flushes : Option Tier → Action

-- `start_workers`
unfoldable pub start : QueueConfig → ℕ → Loop
unfolding init
start config max_concurrent = record {
  manager = init config max_concurrent;
  idle = max_concurrent;
  running = [];
  next_future = 0;
}

unfoldable pub new_item : Loop → Tier → ℕ → String → ℕ → QueueItem
new_item l tier now request_id nbytes = record {
  tier = tier;
  enqueue_time = now;
  request_id = request_id;
  future = l.next_future;
  position = 0;
  nbytes = nbytes;
}

unfoldable pub submit : QueueItem → Loop → Loop
submit item l = record l { manager = (enqueue item l.manager).1; next_future = l.next_future + 1 }

-- What becomes of the worker that took its turn.
unfoldable pub settle_worker : Round → Loop → Loop
settle_worker waits l = record l { idle = l.idle + 1 }
settle_worker (dispatches item) l = record l { running = l.running ++ item ∷ [] }
settle_worker dies l = l

-- A worker goes on where the event is set and the semaphore is free.
abbrev pub can_take : Loop → Bool
can_take l = l.has_items && ltb 0 l.idle && ltb 0 l.semaphore

unfoldable pub take_turn : ℕ → Loop → Loop
unfolding settle_worker
take_turn now l =
    let (round, m) = take now l.manager in
    settle_worker round (record l { manager = m; idle = l.idle - 1 })

abbrev pub remove_at {ℓ} : {A : Type ℓ} → ℕ → List A → List A
remove_at i [] = []
remove_at zero (x ∷ xs) = xs
remove_at (suc i) (x ∷ xs) = x ∷ remove_at i xs

unfoldable pub complete : ℕ → ℕ → Dispatched → Loop → Loop
complete now i d l = elim (get_elem? l.running i) [
  | none ↦ l
  | some item ↦ record l {
    manager = finish now item d l.manager;
    running = remove_at i l.running;
    idle = l.idle + 1;
  }
]

-- The caller's task is cancelled: its future is, unless it is done.
unfoldable pub cancel : ℕ → Loop → Loop
cancel f l =
    if is_pending (l.futures f) then record l { manager = settle f cancelled l.manager } else l

unfoldable pub step : Action → Loop → Loop
unfolding new_item
step (submits tier now request_id nbytes) l = submit (new_item l tier now request_id nbytes) l
step (takes now) l = if can_take l then take_turn now l else l
step (finishes now i d) l = complete now i d l
step (cancels f) l = cancel f l
step (pauses t) l = record l { manager = pause t l.manager }
step (resumes t) l = record l { manager = resume t l.manager }
step (flushes t) l = record l { manager = (flush t l.manager).after }

unfoldable pub run : List Action → Loop → Loop
unfolding step
run [] l = l
run (a ∷ rest) l = run rest (step a l)
