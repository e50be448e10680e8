-- ===== src/Queue/Runs.antt =====
-- A rule for invariants of the manager: what each segment of the code keeps, every run keeps.
use ollama_queue_proxy.Prelude.{
  ℕ, ◌≡◌, refl, subst, Bool, true, false, List, [], ◌∷◌, All, Option, Bool-cases, Option-cases, inl,
  inr, get_elem?,
}
use ollama_queue_proxy.Priority.{Tier}
use ollama_queue_proxy.Queue.State.{Manager, QueueItem, at, put, cancelled, is_pending, settle}
use ollama_queue_proxy.Queue.Enqueue.{enqueue}
use ollama_queue_proxy.Queue.Worker.{take, finish, Dispatched, Round, waits, dispatches, dies}
use ollama_queue_proxy.Queue.Control.{set_paused, pause, resume, flush}
use ollama_queue_proxy.Queue.Flush.{drop_head, flush-keeps}
use ollama_queue_proxy.Queue.Steps.{
  Loop, Action, submits, takes, finishes, cancels, pauses, resumes, flushes, submit, take_turn,
  settle_worker, complete, cancel, step, run, new_item, can_take,
}

-- Every segment but the flush keeps `P`.
pub record Kept {ℓ} (P : Manager → Type ℓ) : Type ℓ where
  pub enqueues : (item : QueueItem) (m : Manager) → P m → P (enqueue item m).1
  pub takes : (now : ℕ) (m : Manager) → P m → P (take now m).1
  pub finishes :
      (now : ℕ) (item : QueueItem) (d : Dispatched) (m : Manager) → P m → P (finish now item d m)
  pub cancels :
      (f : ℕ) (m : Manager) → is_pending (m.futures f) ≡ true → P m → P (settle f cancelled m)
  pub sets_paused : (b : Bool) (t : Option Tier) (m : Manager) → P m → P (set_paused b t m)

-- What the dropping of one item and the end of a tier's loop keep.
pub record FlushKept {ℓ} (P : Manager → Type ℓ) : Type ℓ where
  pub drops :
      (t : Tier) (item : QueueItem) (rest : List QueueItem) (m : Manager)
      → at m.queues t ≡ item ∷ rest
      → P m
      → P (drop_head t item rest m).1
  pub clears :
      (t : Tier) (m : Manager)
      → at m.queues t ≡ []
      → P m
      → P (record m { queues = put m.queues t [] })

-- The actions that do not flush.
abbrev pub NoFlush : Action → Type 0
NoFlush (flushes t) = ⊥
NoFlush _ = Unit

pub settle_worker-manager : (r : Round) (l : Loop) → (settle_worker r l).manager ≡ l.manager
unfolding settle_worker
settle_worker-manager waits l = refl
settle_worker-manager (dispatches item) l = refl
settle_worker-manager dies l = refl

module _ {ℓ} {P : Manager → Type ℓ} (k : Kept P) where
  complete-keeps :
      (now i : ℕ) (d : Dispatched) (l : Loop) → P l.manager → P (complete now i d l).manager
  unfolding complete
  complete-keeps now i d l h = elim (Option-cases (get_elem? l.running i)) [
    | inl e ↦ rw (e, complete) h
    | inr (item, e) ↦ rw (e, complete) (k.finishes now item d l.manager h)
  ]

  cancel-keeps : (f : ℕ) (l : Loop) → P l.manager → P (cancel f l).manager
  unfolding cancel
  cancel-keeps f l h = elim (Bool-cases (is_pending (l.futures f))) [
    | inl e ↦ rw (e, cancel) (k.cancels f l.manager e h)
    | inr e ↦ rw (e, cancel) h
  ]

  step-keeps :
      (a : Action) (l : Loop)
      → ((t : Option Tier) → a ≡ flushes t → P (flush t l.manager).after)
      → P l.manager
      → P (step a l).manager
  unfolding step submit pause resume take_turn
  step-keeps (submits tier now id n) l f h = k.enqueues (new_item l tier now id n) l.manager h
  step-keeps (takes now) l f h = elim (Bool-cases (can_take l)) [
    | inl e ↦ rw (e, step, settle_worker-manager) (k.takes now l.manager h)
    | inr e ↦ rw (e, step) h
  ]
  step-keeps (finishes now i d) l f h = complete-keeps now i d l h
  step-keeps (cancels c) l f h = cancel-keeps c l h
  step-keeps (pauses t) l f h = k.sets_paused true t l.manager h
  step-keeps (resumes t) l f h = k.sets_paused false t l.manager h
  step-keeps (flushes t) l f h = f t refl

  pub run-keeps-unflushed :
      (actions : List Action) (l : Loop)
      → All NoFlush actions
      → P l.manager
      → P (run actions l).manager
  unfolding run
  run-keeps-unflushed [] l n h = h
  run-keeps-unflushed (a ∷ rest) l n h =
      run-keeps-unflushed rest (step a l) n.1
        (step-keeps a l (λ t e. absurd (subst NoFlush e n.0)) h)

  pub run-keeps :
      FlushKept P → (actions : List Action) (l : Loop) → P l.manager → P (run actions l).manager
  unfolding run
  run-keeps w [] l h = h
  run-keeps w (a ∷ rest) l h =
      run-keeps w rest (step a l)
        (step-keeps a l (λ t e. flush-keeps P w.drops w.clears t l.manager h) h)
