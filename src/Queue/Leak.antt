-- ===== src/Queue/Leak.antt =====
-- `flush` and the count of queued bytes.
use ollama_queue_proxy.Prelude.{
  ℕ, ◌+◌, ◌<◌, ◌≡◌, refl, ap, ◌∙◌, true, false, List, [], ◌∷◌, Option, none, arith, Bool-cases, inl,
  inr,
}
use ollama_queue_proxy.Config.{QueueConfig}
use ollama_queue_proxy.Priority.{Tier, high, normal, low}
use ollama_queue_proxy.Queue.State.{Manager, QueueItem, at, put, all_empty, max_queued_bytes}
use ollama_queue_proxy.Queue.Enqueue.{position, queue_over_capacity, enqueue, is_full}
use ollama_queue_proxy.Queue.Control.{flush, flush_items, flush_tier, Flushed}
use ollama_queue_proxy.Queue.Flush.{drop_head, flush-keeps, flush_tier-keeps, at-put_self}
use ollama_queue_proxy.Queue.Bytes.{
  bytes, waiting_bytes, waiting, enqueue-position, all_empty-waiting,
}

-- What a flush leaves.
record Untouched (m n : Manager) : Type 0 where
  same_bytes : n.queued_bytes ≡ m.queued_bytes
  same_config : n.config ≡ m.config

flush-Untouched : (t : Option Tier) (m : Manager) → Untouched m (flush t m).after
flush-Untouched t m =
    flush-keeps (Untouched m) (λ u item rest n q h. ground arith) (λ u n q h. ground arith) t m
      (record { same_bytes = refl; same_config = refl })

-- A queue that is empty stays empty.
abbrev StaysEmpty : Tier → Manager → Type 0
StaysEmpty v n = at n.queues v ≡ []

drop_head-StaysEmpty :
    (v t : Tier) (item : QueueItem) (rest : List QueueItem) (n : Manager)
    → at n.queues t ≡ item ∷ rest
    → StaysEmpty v n
    → StaysEmpty v (drop_head t item rest n).1
drop_head-StaysEmpty high t item rest n q h = ground arith
drop_head-StaysEmpty normal t item rest n q h = ground arith
drop_head-StaysEmpty low t item rest n q h = ground arith

clear-StaysEmpty :
    (v t : Tier) (n : Manager)
    → at n.queues t ≡ []
    → StaysEmpty v n
    → StaysEmpty v (record n { queues = put n.queues t [] })
clear-StaysEmpty high t n q h = ground arith
clear-StaysEmpty normal t n q h = ground arith
clear-StaysEmpty low t n q h = ground arith

flush_items-empties :
    (t : Tier) (items : List QueueItem) (dropped : ℕ) (m : Manager)
    → (flush_items t items dropped m).completed ≡ true
    → StaysEmpty t (flush_items t items dropped m).after
unfolding flush_items
flush_items-empties t [] dropped m c = at-put_self m.queues t []
flush_items-empties t (item ∷ rest) dropped m c = elim (Bool-cases (drop_head t item rest m).0) [
  | inl e ↦ rw e (flush_items-empties t rest (dropped + 1) (drop_head t item rest m).1 (rw e at c))
  | inr e ↦ absurd (ground arith)
]

-- A tier's flush empties its queue if it completes, and then the flushes before it completed too.
flush_tier-empties :
    (t : Tier) (f : Flushed)
    → (flush_tier t f).completed ≡ true
    → StaysEmpty t (flush_tier t f).after × (f.completed ≡ true)
unfolding flush_tier
flush_tier-empties t f c = elim (Bool-cases f.completed) [
  | inl e ↦ (
    rw (e, flush_tier)
        (flush_items-empties t (at f.after.queues t) f.dropped f.after (rw (e, flush_tier) at c)),
    e,
  )
  | inr e ↦ absurd (ground arith)
]

flush_tier-StaysEmpty :
    (v t : Tier) (f : Flushed) → StaysEmpty v f.after → StaysEmpty v (flush_tier t f).after
flush_tier-StaysEmpty v t f h =
    flush_tier-keeps (StaysEmpty v) (drop_head-StaysEmpty v) (clear-StaysEmpty v) t f h

flush-empties :
    (m : Manager) → (flush none m).completed ≡ true → (v : Tier) → StaysEmpty v (flush none m).after
unfolding flush
flush-empties m c v = at_tier v
  where
    start : Flushed
    start = record { dropped = 0; completed = true; after = m }

    f1 : Flushed
    f1 = flush_tier high start

    f2 : Flushed
    f2 = flush_tier normal f1

    last : StaysEmpty low (flush_tier low f2).after × (f2.completed ≡ true)
    last = flush_tier-empties low f2 c

    middle : StaysEmpty normal f2.after × (f1.completed ≡ true)
    middle = flush_tier-empties normal f1 last.1

    at_tier : (v : Tier) → StaysEmpty v (flush_tier low f2).after
    at_tier high =
        flush_tier-StaysEmpty high low f2
          (flush_tier-StaysEmpty high normal f1 (flush_tier-empties high start middle.1).0)
    at_tier normal = flush_tier-StaysEmpty normal low f2 middle.0
    at_tier low = last.0

empty-waiting :
    (m : Manager) → ((v : Tier) → StaysEmpty v m) → (waiting_bytes m ≡ 0) × (waiting m ≡ 0)
unfolding waiting_bytes bytes
empty-waiting m h = ground (arith, h high, h normal, h low)

refused :
    (n : Manager) (b : QueueItem)
    → at n.paused b.tier ≡ false
    → is_full n b.tier ≡ false
    → max_queued_bytes n < n.queued_bytes + b.nbytes
    → all_empty n ≡ false
    → (enqueue b n).0 ≡ queue_over_capacity b.tier n.config.overflow_status_code
unfolding enqueue
refused n b paused full over some_wait = ground arith

-- The bug: a flush drops the requests and keeps their bytes in the count. Where a flush of all
-- tiers completes and a request `a` is admitted after it, the only one that waits, a request `b`
-- to a tier that is neither paused nor full is refused for its bytes as soon as the flushed bytes
-- and those of `a` and `b` pass the ceiling together, however few bytes `a` and `b` have.
pub flush_leaks :
    (m n : Manager) (a b : QueueItem) (p : ℕ)
    → (flush none m).completed ≡ true
    → enqueue a (flush none m).after ≡ (position p, n)
    → at n.paused b.tier ≡ false
    → is_full n b.tier ≡ false
    → max_queued_bytes m < m.queued_bytes + a.nbytes + b.nbytes
    → (waiting_bytes (flush none m).after ≡ 0)
      × (waiting_bytes n ≡ a.nbytes)
      × (waiting n ≡ 1)
      × ((enqueue b n).0 ≡ queue_over_capacity b.tier n.config.overflow_status_code)
flush_leaks m n a b p c e paused full over =
    let (counted, bytes_n, waiting_n, config_n) = enqueue-position a (flush none m).after n p e in
    let (no_bytes, nothing) = empty-waiting (flush none m).after (flush-empties m c) in
    let untouched = flush-Untouched none m in
    let one : waiting n ≡ 1 = omega (arith, waiting_n, nothing) in
    (
      no_bytes,
      omega (arith, bytes_n, no_bytes),
      one,
      refused n b paused full
          (omega (
            arith,
            counted,
            untouched.same_bytes,
            ap (λ (g : QueueConfig). g.max_queued_mb) (config_n ∙ untouched.same_config),
          ))
          (all_empty-waiting n 0 one),
    )
