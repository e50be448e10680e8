-- ===== src/Queue/Ceiling.antt =====
-- The ceiling on queued bytes, in every run.
use ollama_queue_proxy.Prelude.{
  ℕ, ◌*◌, ◌≤◌, ◌≡◌, ◌⊎◌, inr, refl, Bool, List, [], ◌∷◌, All, Option, none, some, arith,
}
use ollama_queue_proxy.Config.{QueueConfig}
use ollama_queue_proxy.Priority.{Tier, high, normal, low}
use ollama_queue_proxy.Queue.State.{Manager, QueueItem, at, put, max_queued_bytes}
use ollama_queue_proxy.Queue.Enqueue.{enqueue}
use ollama_queue_proxy.Queue.Worker.{get_nowait, take, finish, Dispatched, returned, raised}
use ollama_queue_proxy.Queue.Control.{set_paused}
use ollama_queue_proxy.Queue.Flush.{drop_head}
use ollama_queue_proxy.Queue.Runs.{Kept, FlushKept, NoFlush, run-keeps, run-keeps-unflushed}
use ollama_queue_proxy.Queue.Steps.{Action, start, run}
use ollama_queue_proxy.Queue.Bytes.{
  bytes, waiting_bytes, waiting, taken, enqueue-Admitted, config-enqueue,
}

-- The count never falls below what waits, and what is counted is within the ceiling, or one
-- request waits at most.
record Ceiling (config : QueueConfig) (m : Manager) : Type 0 where
  pub same_config : m.config ≡ config
  pub covers : waiting_bytes m ≤ m.queued_bytes
  pub within : (m.queued_bytes ≤ max_queued_bytes m) ⊎ (waiting m ≤ 1)

config-take : (now : ℕ) (m : Manager) → (take now m).1.config ≡ m.config
unfolding take get_nowait
config-take now m = ground arith

enqueue-Ceiling :
    {config : QueueConfig} (item : QueueItem) (m : Manager)
    → Ceiling config m
    → Ceiling config (enqueue item m).1
enqueue-Ceiling item m c = ground (arith, config-enqueue item m, enqueue-Admitted item m)

take-Ceiling :
    {config : QueueConfig} (now : ℕ) (m : Manager)
    → Ceiling config m
    → Ceiling config (take now m).1
take-Ceiling now m c = ground (arith, config-take now m, taken _ _ _ now m refl refl refl)

finish-Ceiling :
    {config : QueueConfig} (now : ℕ) (item : QueueItem) (d : Dispatched) (m : Manager)
    → Ceiling config m
    → Ceiling config (finish now item d m)
unfolding finish waiting_bytes
finish-Ceiling now item (returned a) m c = ground arith
finish-Ceiling now item raised m c = ground arith

set_paused-Ceiling :
    {config : QueueConfig} (b : Bool) (t : Option Tier) (m : Manager)
    → Ceiling config m
    → Ceiling config (set_paused b t m)
unfolding waiting_bytes
set_paused-Ceiling b none m c = ground arith
set_paused-Ceiling b (some t) m c = ground arith

drop_head-Ceiling :
    {config : QueueConfig} (t : Tier) (item : QueueItem) (rest : List QueueItem) (m : Manager)
    → at m.queues t ≡ item ∷ rest
    → Ceiling config m
    → Ceiling config (drop_head t item rest m).1
unfolding waiting_bytes bytes
drop_head-Ceiling high item rest m q c = ground arith
drop_head-Ceiling normal item rest m q c = ground arith
drop_head-Ceiling low item rest m q c = ground arith

clear-Ceiling :
    {config : QueueConfig} (t : Tier) (m : Manager)
    → at m.queues t ≡ []
    → Ceiling config m
    → Ceiling config (record m { queues = put m.queues t [] })
unfolding waiting_bytes bytes
clear-Ceiling high m q c = ground arith
clear-Ceiling normal m q c = ground arith
clear-Ceiling low m q c = ground arith

Ceiling-kept : (config : QueueConfig) → Kept (Ceiling config)
unfolding waiting_bytes
Ceiling-kept config = record {
  enqueues = enqueue-Ceiling;
  takes = take-Ceiling;
  finishes = finish-Ceiling;
  cancels = λ f m p c. record { same_config = c.same_config; covers = c.covers; within = c.within };
  sets_paused = set_paused-Ceiling;
}

Ceiling-flush : (config : QueueConfig) → FlushKept (Ceiling config)
Ceiling-flush config = record { drops = drop_head-Ceiling; clears = clear-Ceiling }

start-Ceiling : (config : QueueConfig) (n : ℕ) → Ceiling config (start config n).manager
unfolding start waiting_bytes bytes
start-Ceiling config n = record {
  same_config = refl;
  covers = omega arith;
  within = inr (omega arith);
}

Ceiling-bound :
    (config : QueueConfig) (m : Manager)
    → Ceiling config m
    → (waiting_bytes m ≤ m.queued_bytes)
      × ((waiting_bytes m ≤ config.max_queued_mb * 1024 * 1024) ⊎ (waiting m ≤ 1))
Ceiling-bound config m c = ground arith

-- Whatever happens from the start on, the bytes that wait in the queues are within
-- `max_queued_mb`, or one request waits at most; and `_queued_bytes` counts them all.
pub run_ceiling :
    (config : QueueConfig) (max_concurrent : ℕ) (actions : List Action)
    → let m = (run actions (start config max_concurrent)).manager in
      (waiting_bytes m ≤ m.queued_bytes)
      × ((waiting_bytes m ≤ config.max_queued_mb * 1024 * 1024) ⊎ (waiting m ≤ 1))
run_ceiling config n actions = Ceiling-bound config (run actions (start config n)).manager (
    run-keeps (Ceiling-kept config) (Ceiling-flush config) actions (start config n)
      (start-Ceiling config n))

-- The count is exact.
abbrev IsExact : Manager → Type 0
IsExact m = m.queued_bytes ≡ waiting_bytes m

finish-IsExact :
    (now : ℕ) (item : QueueItem) (d : Dispatched) (m : Manager)
    → IsExact m
    → IsExact (finish now item d m)
unfolding finish waiting_bytes
finish-IsExact now item (returned a) m e = ground arith
finish-IsExact now item raised m e = ground arith

set_paused-IsExact :
    (b : Bool) (t : Option Tier) (m : Manager) → IsExact m → IsExact (set_paused b t m)
unfolding waiting_bytes
set_paused-IsExact b none m e = e
set_paused-IsExact b (some t) m e = e

IsExact-kept : Kept IsExact
unfolding waiting_bytes
IsExact-kept = record {
  enqueues = λ item m e. ground (arith, enqueue-Admitted item m);
  takes = λ now m e. ground (arith, taken _ _ _ now m refl refl refl);
  finishes = finish-IsExact;
  cancels = λ f m p e. e;
  sets_paused = set_paused-IsExact;
}

-- As long as nothing is flushed, `_queued_bytes` is exactly the number of bytes that wait in the
-- queues, whichever requests are refused, expire or fail.
pub run_exact :
    (config : QueueConfig) (max_concurrent : ℕ) (actions : List Action)
    → All NoFlush actions
    → let m = (run actions (start config max_concurrent)).manager in
      m.queued_bytes ≡ waiting_bytes m
unfolding start waiting_bytes bytes
run_exact config n actions h = run-keeps-unflushed IsExact-kept actions (start config n) h refl
