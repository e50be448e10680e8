-- ===== src/Queue/Deaths.antt =====
-- The workers that end with an exception, over every later run.
use ollama_queue_proxy.Prelude.{
  ℕ, ◌+◌, ◌-◌, ◌*◌, ◌≤◌, ◌<◌, ◌≡◌, inl, inr, true, false, List, [], ◌∷◌, some, length, get_elem?,
  length-append, arith, Bool-cases, Option-cases,
}
use ollama_queue_proxy.Clock.{second}
use ollama_queue_proxy.Config.{QueueConfig}
use ollama_queue_proxy.Queue.State.{Manager, QueueItem, is_pending, tier_config}
use ollama_queue_proxy.Queue.Worker.{get_nowait, take, Round, waits, dispatches, dies}
use ollama_queue_proxy.Queue.Slots.{later_slots, length-remove_at}
use ollama_queue_proxy.Queue.Steps.{
  Loop, Action, submits, takes, finishes, cancels, pauses, resumes, flushes, start, submit,
  can_take, take_turn, settle_worker, complete, cancel, step, run,
}

-- The workers that have not ended.
abbrev pub alive : Loop → ℕ
alive l = l.idle + length l.running

settle_worker-alive :
    (r : Round) (n : Manager) (l : Loop)
    → 0 < l.idle
    → alive (settle_worker r (record l { manager = n; idle = l.idle - 1 })) ≤ alive l
unfolding settle_worker
settle_worker-alive waits n l h = omega (arith, h)
settle_worker-alive (dispatches item) n l h = omega (arith, h, length-append l.running (item ∷ []))
settle_worker-alive dies n l h = omega (arith, h)

-- No worker is started again.
step-alive : (a : Action) (l : Loop) → alive (step a l) ≤ alive l
unfolding step submit take_turn complete cancel
step-alive (submits tier now id n) l = omega arith
step-alive (takes now) l = elim (Bool-cases (can_take l)) [
  | inl e ↦
      rw (e, step)
        (settle_worker-alive (take now l.manager).0 (take now l.manager).1 l (ground (arith, e)))
  | inr e ↦ rw (e, step) (omega arith)
]
step-alive (finishes now i d) l = elim (Option-cases (get_elem? l.running i)) [
  | inl e ↦ rw (e, step, complete) (omega arith)
  | inr (item, e) ↦ rw (e, step, complete) (omega (arith, length-remove_at l.running i item e))
]
step-alive (cancels f) l = ground arith
step-alive (pauses t) l = omega arith
step-alive (resumes t) l = omega arith
step-alive (flushes t) l = omega arith

run-alive : (actions : List Action) (l : Loop) → alive (run actions l) ≤ alive l
unfolding run
run-alive [] l = omega arith
run-alive (a ∷ rest) l = omega (arith, run-alive rest (step a l), step-alive a l)

-- A request that is taken too late, when its caller has gone away.
take-dies :
    (now : ℕ) (m rest : Manager) (item : QueueItem)
    → get_nowait m ≡ some (item, rest)
    → (tier_config m.config item.tier).max_wait * second < now - item.enqueue_time
    → is_pending (m.futures item.future) ≡ false
    → (take now m).0 ≡ dies
unfolding take get_nowait
take-dies now m rest item e late gone = ground arith

-- The worker is gone.
takes-alive :
    (now : ℕ) (l : Loop)
    → can_take l ≡ true
    → (take now l.manager).0 ≡ dies
    → alive (step (takes now) l) < alive l
unfolding step take_turn settle_worker
takes-alive now l can d = ground (arith, d)

-- The bug: after any run of the queue, a worker that takes a request which has waited too long and
-- whose caller has gone away ends with an exception. Whatever happens later, there is one worker less,
-- and `_active` stays above the number of requests that are dispatched.
pub worker_lost :
    (config : QueueConfig) (max_concurrent : ℕ) (before later : List Action) (now : ℕ)
    (item : QueueItem) (rest : Manager)
    → let l = run before (start config max_concurrent) in
      can_take l ≡ true
      → get_nowait l.manager ≡ some (item, rest)
      → (tier_config l.manager.config item.tier).max_wait * second < now - item.enqueue_time
      → is_pending (l.futures item.future) ≡ false
      → let s = run later (step (takes now) l) in
        (alive s < alive l) × (length s.running < s.active)
worker_lost config n before later now item rest can e late gone =
    let l = run before (start config n) in
    let after = step (takes now) l in
    let (counted, whole, whole') = later_slots config n before later (takes now) in
    let lost = takes-alive now l can (take-dies now l.manager rest item e late gone) in
    (
      omega (arith, lost, run-alive later after),
      omega (arith, lost, run-alive later after, counted, whole, whole'),
    )
