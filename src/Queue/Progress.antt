-- ===== src/Queue/Progress.antt =====
-- The turn of a worker at the head of its loop.
use ollama_queue_proxy.Prelude.{
  ℕ, suc, ◌<◌, ◌≡◌, refl, sym, subst, true, false, List, [], ◌∷◌, arith,
}
use ollama_queue_proxy.Config.{QueueConfig}
use ollama_queue_proxy.Queue.State.{Manager, QueueItem, all_empty}
use ollama_queue_proxy.Queue.Worker.{take, get_nowait}
use ollama_queue_proxy.Queue.Bytes.{waiting}
use ollama_queue_proxy.Queue.Slots.{run_slots}
use ollama_queue_proxy.Queue.Awake.{run_awake}
use ollama_queue_proxy.Queue.Runs.{settle_worker-manager}
use ollama_queue_proxy.Queue.Steps.{Loop, Action, takes, start, run, step, can_take, take_turn}

take-waiting :
    (a b c : List QueueItem) (now : ℕ) (m : Manager)
    → m.queues.at_high ≡ a
    → m.queues.at_normal ≡ b
    → m.queues.at_low ≡ c
    → all_empty m ≡ false
    → waiting m ≡ suc (waiting (take now m).1)
unfolding take get_nowait
take-waiting (x ∷ a) b c now m p q r e = ground arith
take-waiting [] (x ∷ b) c now m p q r e = ground arith
take-waiting [] [] (x ∷ c) now m p q r e = ground arith
take-waiting [] [] [] now m p q r e = ground arith

pub step-takes :
    (now : ℕ) (l : Loop) → can_take l ≡ true → (step (takes now) l).manager ≡ (take now l.manager).1
unfolding step take_turn
step-takes now l e = rw (e, step, settle_worker-manager) refl

-- Whatever happens from the start on: where a request waits and a worker is at the head of its loop,
-- that worker can go on, and its turn takes exactly one request out of the queues.
pub run_progress :
    (config : QueueConfig) (max_concurrent now : ℕ) (actions : List Action)
    → let l = run actions (start config max_concurrent) in
      all_empty l.manager ≡ false
      → 0 < l.idle
      → (can_take l ≡ true) × (waiting l.manager ≡ suc (waiting (step (takes now) l).manager))
run_progress config n now actions e idle =
    let l = run actions (start config n) in
    let awake = run_awake config n actions e in
    let (running, most, workers, free) = run_slots config n actions in
    let permit = free idle in
    let able : can_take l ≡ true = ground arith in
    (
      able,
      subst (λ m. waiting l.manager ≡ suc (waiting m)) (sym (step-takes now l able))
          (take-waiting l.queues.at_high l.queues.at_normal l.queues.at_low now l.manager refl refl
            refl e),
    )
