-- ===== src/Queue/Shutdown.antt =====
-- The shutdown: `drain` and `stop_workers` of src/ollama_queue_proxy/queue.py, as `lifespan` of
-- src/ollama_queue_proxy/main.py calls them past its `yield`.
use ollama_queue_proxy.Prelude.{◌+◌, Bool, ◌||◌, Option, none, some, [], length, if◌then◌else◌}
use ollama_queue_proxy.Queue.State.{Manager, all_empty}
use ollama_queue_proxy.Queue.Steps.{Loop}

-- Whether the loop of `drain` ends at this look at the queues.
abbrev pub drained : Manager → Bool
drained m = all_empty m

-- `stop_workers`: a worker that is cancelled in its dispatch leaves the semaphore, and runs nothing
-- more: it writes neither the future nor `_active`.
unfoldable pub stop_workers : Loop → Loop
stop_workers l = record l {
  manager = record l.manager { semaphore = l.semaphore + length l.running };
  idle = 0;
  running = [];
}

-- The wait for `drain` with its timeout, at one look, and what follows it: `none` while it waits.
unfoldable pub shut_down : (timed_out : Bool) → Loop → Option Loop
unfolding stop_workers
shut_down timed_out l = if timed_out || drained l.manager then some (stop_workers l) else none
