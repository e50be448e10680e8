-- ===== src/Queue/Order.antt =====
-- Which item a worker takes, and which it dispatches.
use ollama_queue_proxy.Prelude.{
  ℕ, ◌+◌, ◌-◌, ◌*◌, ◌≤◌, ◌<◌, ◌≡◌, ◌≢◌, inl, inr, refl, List, [], ◌∷◌, Option-cases, some, arith,
}
use ollama_queue_proxy.Clock.{second}
use ollama_queue_proxy.Priority.{Tier, high, normal, low, priority_order}
use ollama_queue_proxy.Queue.State.{Manager, QueueItem, at, tier_config}
use ollama_queue_proxy.Queue.Worker.{get_nowait, take, dispatches}

-- What it means that `item` comes first at tier `t`.
abbrev pub TakenAt : Manager → QueueItem → Manager → Tier → Type 0
TakenAt m item after t =
    (at m.queues t ≡ item ∷ at after.queues t)
    × ((u : Tier) → priority_order t < priority_order u → at m.queues u ≡ [])
    × ((u : Tier) → u ≢ t → at after.queues u ≡ at m.queues u)

taken_at :
    (a b c : List QueueItem) (m : Manager) (item : QueueItem) (after : Manager)
    → m.queues.at_high ≡ a
    → m.queues.at_normal ≡ b
    → m.queues.at_low ≡ c
    → get_nowait m ≡ some (item, after)
    → (t : Tier) × TakenAt m item after t
unfolding get_nowait priority_order
taken_at (x ∷ a) b c m item after p q r e =
    (high, (ground arith, λ u h. ground arith, λ u h. ground arith))
taken_at [] (x ∷ b) c m item after p q r e =
    (normal, (ground arith, λ u h. ground arith, λ u h. ground arith))
taken_at [] [] (x ∷ c) m item after p q r e =
    (low, (ground arith, λ u h. ground arith, λ u h. ground arith))
taken_at [] [] [] m item after p q r e = absurd (ground arith)

-- The item that a worker takes is the oldest of its tier, and every tier above is empty; the
-- queues are as they were but for that item.
pub get_nowait_order :
    (m : Manager) (item : QueueItem) (after : Manager)
    → get_nowait m ≡ some (item, after)
    → (t : Tier) × TakenAt m item after t
get_nowait_order m item after e = taken_at _ _ _ m item after refl refl refl e

get_nowait-same :
    (m : Manager) (item : QueueItem) (after : Manager)
    → get_nowait m ≡ some (item, after)
    → (after.config ≡ m.config) × (after.active ≡ m.active) × (after.queued_bytes ≡ m.queued_bytes)
unfolding get_nowait
get_nowait-same m item after e = ground arith

-- A worker dispatches only the item that comes first, and only if it has not waited longer than
-- the `max_wait` of its tier; an older one is counted as expired and never dispatched.
pub take_dispatches :
    (now : ℕ) (m n : Manager) (item : QueueItem)
    → take now m ≡ (dispatches item, n)
    → (now - item.enqueue_time ≤ (tier_config m.config item.tier).max_wait * second)
      × ((rest : Manager) × (get_nowait m ≡ some (item, rest)))
      × (n.active ≡ m.active + 1)
      × (n.queued_bytes ≡ m.queued_bytes - item.nbytes)
unfolding take
take_dispatches now m n item e = elim (Option-cases (get_nowait m)) [
  | inl p ↦ absurd (ground arith)
  | inr (found, p) ↦
      (let same = get_nowait-same m found.0 found.1 p in
        (
          ground (arith, same),
          (found.1, ground (arith, same)),
          ground (arith, same),
          ground (arith, same),
        ))
]
