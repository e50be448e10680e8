-- ===== src/Queue/Retry.antt =====
-- The hint for Retry-After.
use native.Mathlib.Nat.{div-add-mod', mod-lt, mul-pos}
use ollama_queue_proxy.Prelude.{ℕ, ◌+◌, ◌-◌, ◌*◌, ◌≤◌, ◌<◌, arith}
use ollama_queue_proxy.Clock.{second}
use ollama_queue_proxy.Priority.{Tier}
use ollama_queue_proxy.Queue.State.{Manager, TierStats, at, depth}
use ollama_queue_proxy.Queue.Control.{mean_wait, ceil_div, max_one, retry_after}

ceil_div-bounds : (a b : ℕ) → 0 < b → (a ≤ ceil_div a b * b) × (ceil_div a b * b < a + b)
unfolding ceil_div
ceil_div-bounds a b h =
    let split = div-add-mod' (a + (b - 1)) b in
    let small = mod-lt (a + (b - 1)) h in omega (arith, split, small, h)

max_one-pos : (n : ℕ) → 0 < max_one n
max_one-pos n = ground arith

mean_wait-pos : (s : TierStats) → 0 < (mean_wait s).1
unfolding mean_wait
mean_wait-pos s = ground arith

-- The hint is the least number of whole seconds in which the requests that wait get through, if each
-- takes the mean wait of its tier and `max_concurrent` (at least one) run at a time.
pub retry_after_exact :
    (t : Tier) (m : Manager)
    → let (total, count) = mean_wait (at m.stats t) in
      let share = max_one m.max_concurrent * count * second in
      (depth m t * total ≤ retry_after t m * share)
      × (retry_after t m * share < depth m t * total + share)
unfolding retry_after
retry_after_exact t m =
    ceil_div-bounds (depth m t * (mean_wait (at m.stats t)).0)
      (max_one m.max_concurrent * (mean_wait (at m.stats t)).1 * second)
      (mul-pos (mul-pos (max_one-pos m.max_concurrent) (mean_wait-pos (at m.stats t)))
        (omega arith))
