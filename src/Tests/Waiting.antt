-- ===== src/Tests/Waiting.antt =====
-- The queues and their workers, at concrete inputs.
use ollama_queue_proxy.Prelude.{
  ℕ, suc, ◌+◌, ◌-◌, ◌*◌, ◌≤◌, ◌<◌, ◌≡◌, ◌⊎◌, refl, true, false, none, some, List, [], ◌∷◌, All,
  arith, length,
}
use ollama_queue_proxy.Clock.{second}
use ollama_queue_proxy.Priority.{Tier, high, normal, low}
use ollama_queue_proxy.Queue.State.{
  is_pending, Manager, QueueItem, tier_config, all_empty, at, put, init, max_queued_bytes,
}
use ollama_queue_proxy.Queue.Enqueue.{
  position, queue_over_capacity, enqueue, is_full, admit, check_watermark,
}
use ollama_queue_proxy.Queue.Worker.{get_nowait, take, finish, dispatches, raised}
use ollama_queue_proxy.Queue.Control.{flush, retry_after}
use ollama_queue_proxy.Queue.Steps.{
  Action, submits, takes, finishes, cancels, run, start, complete, cancel, submit, step, can_take,
  take_turn,
}
use ollama_queue_proxy.Queue.Slots.{run_slots}
use ollama_queue_proxy.Queue.Awake.{run_awake}
use ollama_queue_proxy.Queue.Bytes.{waiting, waiting_bytes}
use ollama_queue_proxy.Queue.Ceiling.{run_ceiling, run_exact}
use ollama_queue_proxy.Queue.Runs.{NoFlush}
use ollama_queue_proxy.Queue.Deaths.{alive, worker_lost}
use ollama_queue_proxy.Queue.Progress.{run_progress}
use ollama_queue_proxy.Queue.Contents.{contents}
use ollama_queue_proxy.Queue.Refinement.{Serving, run_refines}
use ollama_queue_proxy.Queue.Leak.{flush_leaks}
use ollama_queue_proxy.Tests.Data.{queue_config}

abbrev item_of : Tier → ℕ → ℕ → QueueItem
item_of t f n = record {
  tier = t;
  enqueue_time = 0;
  request_id = "r";
  future = f;
  position = 1;
  nbytes = n;
}

-- Three requests, two of which are dispatched by two workers, one to its end.
abbrev busy : List Action
busy =
    submits low 1 "r1" 100
    ∷ submits high 2 "r2" 200
    ∷ takes 3
    ∷ submits normal 4 "r3" 300
    ∷ takes 5
    ∷ cancels 1
    ∷ finishes 6 0 raised
    ∷ []

busy_active : (run busy (start queue_config 2)).active ≡ 1
unfolding run complete cancel submit enqueue start check_watermark admit take_turn take get_nowait
    finish
busy_active = refl

run_slots_example :
    let l = run busy (start queue_config 2) in
    (length l.running ≤ l.active)
    × (l.active ≤ 2)
    × (l.active + l.idle ≡ 2)
    × (0 < l.idle → 0 < l.semaphore)
run_slots_example = run_slots queue_config 2 busy

busy_waits : all_empty (run busy (start queue_config 2)).manager ≡ false
unfolding run complete cancel submit enqueue start check_watermark admit take_turn take get_nowait
    finish
busy_waits = refl

run_awake_example : (run busy (start queue_config 2)).has_items ≡ true
run_awake_example = run_awake queue_config 2 busy busy_waits

run_ceiling_example :
    let m = (run busy (start queue_config 2)).manager in
    (waiting_bytes m ≤ m.queued_bytes)
    × ((waiting_bytes m ≤ queue_config.max_queued_mb * 1024 * 1024) ⊎ (waiting m ≤ 1))
run_ceiling_example = run_ceiling queue_config 2 busy

busy-NoFlush : All NoFlush busy
busy-NoFlush = (tt, (tt, (tt, (tt, (tt, (tt, (tt, tt)))))))

run_exact_example :
    (run busy (start queue_config 2)).queued_bytes
    ≡ waiting_bytes (run busy (start queue_config 2)).manager
run_exact_example = run_exact queue_config 2 busy busy-NoFlush

-- A request of each of two tiers.
abbrev two_waiting : Manager
two_waiting = record (init queue_config 2) {
  queues = record {
    at_high = [];
    at_normal = item_of normal 0 10 ∷ item_of normal 1 20 ∷ [];
    at_low = item_of low 2 30 ∷ [];
  };
  queued_bytes = 60;
  has_items = true;
}

abbrev one_taken : Manager
one_taken = record two_waiting { queues = put two_waiting.queues normal (item_of normal 1 20 ∷ []) }

gets_normal : get_nowait two_waiting ≡ some (item_of normal 0 10, one_taken)
unfolding get_nowait
gets_normal = refl

abbrev taken : Manager
taken = record one_taken { semaphore = 1; active = 1; queued_bytes = 50 }

dispatches_normal : take 5 two_waiting ≡ (dispatches (item_of normal 0 10), taken)
unfolding take get_nowait init
dispatches_normal = refl

-- Nearly a megabyte waits, and is flushed; then a small request comes, and another one.
abbrev laden : Manager
laden = record (init queue_config 2) {
  queues = record { at_high = []; at_normal = item_of normal 0 1048570 ∷ []; at_low = [] };
  queued_bytes = 1048570;
}

abbrev one_small : Manager
one_small = (enqueue (item_of low 1 5) (flush none laden).after).1

flush_completes : (flush none laden).completed ≡ true
unfolding flush init
flush_completes = refl

small_enters : enqueue (item_of low 1 5) (flush none laden).after ≡ (position 1, one_small)
unfolding enqueue flush init
small_enters = refl

low_open : at one_small.paused low ≡ false
unfolding enqueue flush init admit check_watermark
low_open = refl

low_free : is_full one_small low ≡ false
unfolding enqueue flush init admit check_watermark
low_free = refl

over_ceiling : max_queued_bytes laden < laden.queued_bytes + 5 + 5
unfolding init
over_ceiling = omega arith

flush_leaks_example :
    (waiting_bytes (flush none laden).after ≡ 0)
    × (waiting_bytes one_small ≡ 5)
    × (waiting one_small ≡ 1)
    × ((enqueue (item_of low 2 5) one_small).0
        ≡ queue_over_capacity low one_small.config.overflow_status_code)
flush_leaks_example =
    flush_leaks laden one_small (item_of low 1 5) (item_of low 2 5) 1 flush_completes small_enters
      low_open low_free over_ceiling

-- The caller of the first request has gone away before a worker takes it.
abbrev deserted : List Action
deserted = submits normal 0 "r" 10 ∷ cancels 0 ∷ submits low 1 "r2" 10 ∷ []

gets_deserted :
    get_nowait (run deserted (start queue_config 2)).manager
    ≡ some (
      item_of normal 0 10,
      record (run deserted (start queue_config 2)).manager {
        queues = put (run deserted (start queue_config 2)).queues normal [];
      },
    )
unfolding run cancel submit enqueue start check_watermark admit get_nowait
gets_deserted = refl

deserted_free : can_take (run deserted (start queue_config 2)) ≡ true
unfolding run cancel submit enqueue start check_watermark admit
deserted_free = refl

deserted_done : is_pending ((run deserted (start queue_config 2)).futures 0) ≡ false
unfolding run cancel submit enqueue start check_watermark admit
deserted_done = refl

too_late :
    (tier_config (run deserted (start queue_config 2)).config normal).max_wait * second
    < 400000000000 - 0
unfolding run cancel submit enqueue start check_watermark admit
too_late = omega arith

worker_lost_example :
    let l = run deserted (start queue_config 2) in
    let s =
      run
        (takes 400000000001 ∷ finishes 400000000002 0 raised ∷ [])
        (step (takes 400000000000) l) in
    (alive s < alive l) × (length s.running < s.active)
worker_lost_example =
    worker_lost queue_config 2 deserted (takes 400000000001 ∷ finishes 400000000002 0 raised ∷ [])
      400000000000 (item_of normal 0 10)
      (record (run deserted (start queue_config 2)).manager {
        queues = put (run deserted (start queue_config 2)).queues normal [];
      })
      deserted_free gets_deserted too_late deserted_done

-- Two requests wait, five seconds each and two at a time.
two_waits_hint : retry_after normal two_waiting ≡ 5
unfolding retry_after init
two_waits_hint = refl

-- A request has come, and no worker has taken its turn yet.
abbrev come : List Action
come = submits low 1 "r1" 100 ∷ []

come_waits : all_empty (run come (start queue_config 2)).manager ≡ false
unfolding run submit enqueue start check_watermark admit
come_waits = refl

come_idle : 0 < (run come (start queue_config 2)).idle
unfolding run submit enqueue start check_watermark admit
come_idle = omega arith

run_progress_example :
    let l = run come (start queue_config 2) in
    (can_take l ≡ true) × (waiting l.manager ≡ suc (waiting (step (takes 3) l).manager))
run_progress_example = run_progress queue_config 2 3 come come_waits come_idle

run_refines_example : Serving busy [] (contents (run busy (start queue_config 2)).queues)
run_refines_example = run_refines queue_config 2 busy
