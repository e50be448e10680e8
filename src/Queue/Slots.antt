-- ===== src/Queue/Slots.antt =====
-- The slots of the worker pool: how many dispatches run at once.
use ollama_queue_proxy.Prelude.{
  ℕ, suc, ◌+◌, ◌-◌, ◌≤◌, ◌<◌, ◌≡◌, inl, inr, refl, true, List, [], ◌∷◌, length, length-append,
  Option, none, some, arith, get_elem?, Option-cases, Bool-cases, ap, zero,
}
use ollama_queue_proxy.Config.{QueueConfig}
use ollama_queue_proxy.Priority.{Tier}
use ollama_queue_proxy.Queue.State.{Manager, QueueItem}
use ollama_queue_proxy.Queue.Enqueue.{enqueue, admit, check_watermark}
use ollama_queue_proxy.Queue.Worker.{
  get_nowait, take, finish, Round, waits, dispatches, dies, Dispatched, returned, raised,
}
use ollama_queue_proxy.Queue.Control.{pause, resume, flush}
use ollama_queue_proxy.Queue.Flush.{flush-keeps}
use ollama_queue_proxy.Queue.Steps.{
  Loop, Action, submits, takes, finishes, cancels, pauses, resumes, flushes, start, submit,
  take_turn, settle_worker, remove_at, complete, cancel, step, new_item, run, can_take,
}

-- What a call leaves as it was.
record SameSlots (m n : Manager) : Type 0 where
  pub same_active : n.active ≡ m.active
  pub same_semaphore : n.semaphore ≡ m.semaphore
  pub same_max : n.max_concurrent ≡ m.max_concurrent

enqueue-SameSlots : (item : QueueItem) (m : Manager) → SameSlots m (enqueue item m).1
unfolding enqueue admit check_watermark
enqueue-SameSlots item m = ground arith

-- What a worker's turn does to the counters.
abbrev Turn : Manager → Round × Manager → Type 0
Turn m (waits, n) = SameSlots m n
Turn m (dispatches item, n) =
    (n.active ≡ m.active + 1)
    × (n.semaphore + 1 ≡ m.semaphore)
    × (n.max_concurrent ≡ m.max_concurrent)
Turn m (dies, n) =
    (n.active ≡ m.active + 1) × (n.semaphore ≡ m.semaphore) × (n.max_concurrent ≡ m.max_concurrent)

take-Turn : (now : ℕ) (m : Manager) → 0 < m.semaphore → Turn m (take now m)
unfolding take get_nowait
take-Turn now m h = ground arith

finish-slots :
    (now : ℕ) (item : QueueItem) (d : Dispatched) (m : Manager)
    → let n = finish now item d m in
      (n.active ≡ m.active - 1)
      × (n.semaphore ≡ m.semaphore + 1)
      × (n.max_concurrent ≡ m.max_concurrent)
unfolding finish
finish-slots now item (returned a) m = ground arith
finish-slots now item raised m = ground arith

flush-SameSlots : (t : Option Tier) (m : Manager) → SameSlots m (flush t m).after
flush-SameSlots t m =
    flush-keeps (SameSlots m) (λ u item rest n q h. ground arith) (λ u n q h. ground arith) t m
      (record { same_active = refl; same_semaphore = refl; same_max = refl })

-- Each worker is at the head of its loop, or counted in `active`; a dispatch holds one permit of
-- the semaphore and is counted in `active`.
record Slots (k : ℕ) (l : Loop) : Type 0 where
  pub workers : l.max_concurrent ≡ k
  pub slots : l.active + l.idle ≡ k
  pub permits : l.semaphore + length l.running ≡ k
  pub counted : length l.running ≤ l.active

settle_worker-Slots :
    {k : ℕ} (r : Round) (n : Manager) (l : Loop)
    → Turn l.manager (r, n)
    → 0 < l.idle
    → Slots k l
    → Slots k (settle_worker r (record l { manager = n; idle = l.idle - 1 }))
unfolding settle_worker
settle_worker-Slots waits n l t h s = ground arith
settle_worker-Slots (dispatches item) n l t h s =
    ground (arith, length-append l.running (item ∷ []))
settle_worker-Slots dies n l t h s = ground arith

take_turn-Slots :
    {k : ℕ} (now : ℕ) (l : Loop) → can_take l ≡ true → Slots k l → Slots k (take_turn now l)
unfolding take_turn
take_turn-Slots now l h s =
    settle_worker-Slots (take now l.manager).0 (take now l.manager).1 l
      (take-Turn now l.manager (ground arith)) (ground arith) s

pub length-remove_at :
    (xs : List QueueItem) (i : ℕ) (x : QueueItem)
    → get_elem? xs i ≡ some x
    → suc (length (remove_at i xs)) ≡ length xs
length-remove_at [] i x e = cc
length-remove_at (y ∷ xs) zero x e = refl
length-remove_at (y ∷ xs) (suc i) x e = ap suc (length-remove_at xs i x e)

complete-Slots :
    {k : ℕ} (now i : ℕ) (d : Dispatched) (l : Loop) → Slots k l → Slots k (complete now i d l)
unfolding complete
complete-Slots now i d l s = elim (Option-cases (get_elem? l.running i)) [
  | inl e ↦ rw (e, complete) s
  | inr (item, e) ↦
      rw (e, complete)
        (ground (arith, finish-slots now item d l.manager, length-remove_at l.running i item e))
]

-- Every action keeps the slots.
step-Slots : {k : ℕ} (a : Action) (l : Loop) → Slots k l → Slots k (step a l)
unfolding step submit cancel pause resume
step-Slots (submits tier now id n) l s =
    ground (arith, enqueue-SameSlots (new_item l tier now id n) l.manager)
step-Slots (takes now) l s = elim (Bool-cases (can_take l)) [
  | inl e ↦ rw (e, step) (take_turn-Slots now l e s)
  | inr e ↦ rw (e, step) s
]
step-Slots (finishes now i d) l s = complete-Slots now i d l s
step-Slots (cancels f) l s = ground arith
step-Slots (pauses none) l s = ground arith
step-Slots (pauses (some t)) l s = ground arith
step-Slots (resumes none) l s = ground arith
step-Slots (resumes (some t)) l s = ground arith
step-Slots (flushes t) l s = ground (arith, flush-SameSlots t l.manager)

run-Slots : {k : ℕ} (actions : List Action) (l : Loop) → Slots k l → Slots k (run actions l)
unfolding run
run-Slots [] l s = s
run-Slots (a ∷ rest) l s = run-Slots rest (step a l) (step-Slots a l s)

start-Slots :
    (config : QueueConfig) (max_concurrent : ℕ) → Slots max_concurrent (start config max_concurrent)
unfolding start
start-Slots config n = ground arith

-- Whatever happens from the start on: no more dispatches run than `max_concurrent`, `_active`
-- counts at least those that run and at most `max_concurrent`, and a worker at the head of its
-- loop never finds the semaphore taken.
pub run_slots :
    (config : QueueConfig) (max_concurrent : ℕ) (actions : List Action)
    → let l = run actions (start config max_concurrent) in
      (length l.running ≤ l.active)
      × (l.active ≤ max_concurrent)
      × (l.active + l.idle ≡ max_concurrent)
      × (0 < l.idle → 0 < l.semaphore)
run_slots config n actions =
    let s = run-Slots actions (start config n) (start-Slots config n) in
    omega (arith, s.slots, s.permits, s.counted)

-- The same past a run, a step and another run.
pub later_slots :
    (config : QueueConfig) (max_concurrent : ℕ) (before later : List Action) (a : Action)
    → let l = run before (start config max_concurrent) in
      let s = run later (step a l) in
      (length l.running ≤ l.active)
      × (l.active + l.idle ≡ max_concurrent)
      × (s.active + s.idle ≡ max_concurrent)
later_slots config n before later a =
    let l = run before (start config n) in
    let first = run-Slots before (start config n) (start-Slots config n) in
    let last = run-Slots later (step a l) (step-Slots a l first) in
    (first.counted, first.slots, last.slots)
