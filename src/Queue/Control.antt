-- ===== src/Queue/Control.antt =====
-- The controls of the queue manager: pause, resume, flush, and the hint for Retry-After.
use ollama_queue_proxy.Prelude.{
  ℕ, zero, suc, ◌+◌, ◌-◌, ◌*◌, ◌/◌, Bool, true, false, List, [], ◌∷◌, length, ltb, if◌then◌else◌,
  Option, none, some,
}
use ollama_queue_proxy.Clock.{second}
use ollama_queue_proxy.Priority.{Tier, high, normal, low}
use ollama_queue_proxy.Queue.State.{
  Manager, QueueItem, TierStats, queue_flushed, at, put, each, depth,
}
use ollama_queue_proxy.Queue.Worker.{set_exception}

abbrev pub set_paused : Bool → Option Tier → Manager → Manager
set_paused b none m = record m { paused = each b }
set_paused b (some t) m = record m { paused = put m.paused t b }

unfoldable pub pause : Option Tier → Manager → Manager
pause = set_paused true

unfoldable pub resume : Option Tier → Manager → Manager
resume = set_paused false

-- What a flush did: how many it dropped, and whether it went to its end or ended in an
-- InvalidStateError, which leaves the tiers and items that follow as they are.
pub record Flushed : Type 0 where
  pub dropped : ℕ
  pub completed : Bool
  pub after : Manager

-- `while not q.empty(): ... get_nowait() ... set_exception(...)` over the items of tier `t`.
unfoldable pub flush_items : Tier → List QueueItem → ℕ → Manager → Flushed
flush_items t [] dropped m = record {
  dropped = dropped;
  completed = true;
  after = record m { queues = put m.queues t [] };
}
flush_items t (item ∷ rest) dropped m =
    let (done, m') =
      set_exception item.future queue_flushed (record m { queues = put m.queues t rest }) in
    let later = flush_items t rest (dropped + 1) m' in
    if done then later else record { dropped = dropped; completed = false; after = m' }

unfoldable pub flush_tier : Tier → Flushed → Flushed
unfolding flush_items
flush_tier t f = if f.completed then flush_items t (at f.after.queues t) f.dropped f.after else f

unfoldable pub flush : Option Tier → Manager → Flushed
unfolding flush_tier
flush none m =
    let start : Flushed = record { dropped = 0; completed = true; after = m } in
    flush_tier low (flush_tier normal (flush_tier high start))
flush (some t) m = flush_tier t (record { dropped = 0; completed = true; after = m })

sum : List ℕ → ℕ
sum [] = 0
sum (x ∷ xs) = x + sum xs

-- `mean_wait`, in nanoseconds, as a numerator and a denominator.
unfoldable pub mean_wait : TierStats → ℕ × ℕ
unfolding sum
mean_wait s =
    if ltb (length s.recent_waits) 3
    then (5 * second, 1)
    else (sum s.recent_waits, length s.recent_waits)

unfoldable pub ceil_div : ℕ → ℕ → ℕ
ceil_div a b = (a + (b - 1)) / b

abbrev pub max_one : ℕ → ℕ
max_one zero = 1
max_one (suc n) = suc n

-- `math.ceil(depth / max(self._max_concurrent, 1) * mean_wait)`, over exact fractions.
unfoldable pub retry_after : Tier → Manager → ℕ
unfolding mean_wait ceil_div
retry_after t m =
    let (total, count) = mean_wait (at m.stats t) in
    ceil_div (depth m t * total) (max_one m.max_concurrent * count * second)
