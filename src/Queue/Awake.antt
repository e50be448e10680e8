-- ===== src/Queue/Awake.antt =====
-- The event `_has_items`, for which the workers wait.
use ollama_queue_proxy.Prelude.{ℕ, ◌≡◌, Bool, true, false, List, [], ◌∷◌, Option, none, some, arith}
use ollama_queue_proxy.Config.{QueueConfig}
use ollama_queue_proxy.Priority.{Tier, high, normal, low}
use ollama_queue_proxy.Queue.State.{Manager, QueueItem, at, put, all_empty}
use ollama_queue_proxy.Queue.Enqueue.{enqueue, admit, check_watermark}
use ollama_queue_proxy.Queue.Worker.{get_nowait, take, finish, Dispatched, returned, raised}
use ollama_queue_proxy.Queue.Control.{set_paused}
use ollama_queue_proxy.Queue.Flush.{drop_head}
use ollama_queue_proxy.Queue.Runs.{Kept, FlushKept, run-keeps}
use ollama_queue_proxy.Queue.Steps.{Action, start, run}

abbrev IsAwake : Manager → Type 0
IsAwake m = all_empty m ≡ false → m.has_items ≡ true

enqueue-IsAwake : (item : QueueItem) (m : Manager) → IsAwake m → IsAwake (enqueue item m).1
unfolding enqueue admit check_watermark
enqueue-IsAwake item m a = λ e. ground arith

-- The event is cleared only where all queues are empty.
take-IsAwake : (now : ℕ) (m : Manager) → IsAwake m → IsAwake (take now m).1
unfolding take get_nowait
take-IsAwake now m a = λ e. ground arith

finish-IsAwake :
    (now : ℕ) (item : QueueItem) (d : Dispatched) (m : Manager)
    → IsAwake m
    → IsAwake (finish now item d m)
unfolding finish
finish-IsAwake now item (returned x) m a = λ e. ground arith
finish-IsAwake now item raised m a = λ e. ground arith

set_paused-IsAwake :
    (b : Bool) (t : Option Tier) (m : Manager) → IsAwake m → IsAwake (set_paused b t m)
set_paused-IsAwake b none m a = a
set_paused-IsAwake b (some t) m a = a

drop_head-IsAwake :
    (t : Tier) (item : QueueItem) (rest : List QueueItem) (m : Manager)
    → at m.queues t ≡ item ∷ rest
    → IsAwake m
    → IsAwake (drop_head t item rest m).1
drop_head-IsAwake high item rest m q a = λ e. ground arith
drop_head-IsAwake normal item rest m q a = λ e. ground arith
drop_head-IsAwake low item rest m q a = λ e. ground arith

clear-IsAwake :
    (t : Tier) (m : Manager)
    → at m.queues t ≡ []
    → IsAwake m
    → IsAwake (record m { queues = put m.queues t [] })
clear-IsAwake high m q a = λ e. ground arith
clear-IsAwake normal m q a = λ e. ground arith
clear-IsAwake low m q a = λ e. ground arith

IsAwake-kept : Kept IsAwake
IsAwake-kept = record {
  enqueues = enqueue-IsAwake;
  takes = take-IsAwake;
  finishes = finish-IsAwake;
  cancels = λ f m p a. a;
  sets_paused = λ b t m a. set_paused-IsAwake b t m a;
}

IsAwake-flush : FlushKept IsAwake
IsAwake-flush = record { drops = drop_head-IsAwake; clears = clear-IsAwake }

-- Whatever happens from the start on, a request waits in some queue only while the event is set:
-- no wake-up is lost, also by the worker that clears the event.
pub run_awake :
    (config : QueueConfig) (max_concurrent : ℕ) (actions : List Action)
    → let l = run actions (start config max_concurrent) in
      all_empty l.manager ≡ false → l.has_items ≡ true
unfolding start
run_awake config n actions = run-keeps IsAwake-kept IsAwake-flush actions (start config n) (λ e. cc)
