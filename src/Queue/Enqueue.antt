-- ===== src/Queue/Enqueue.antt =====
-- `enqueue` of src/ollama_queue_proxy/queue.py. Percentages are compared as exact fractions.
use ollama_queue_proxy.Prelude.{
  ℕ, ◌+◌, ◌*◌, Bool, true, false, not, ◌&&◌, [], ◌∷◌, ◌++◌, ltb, leb, ◌==◌, if◌then◌else◌,
}
use ollama_queue_proxy.Priority.{Tier}
use ollama_queue_proxy.Queue.State.{
  Manager, QueueItem, at, put, full, over_capacity, high_watermark, tier_config, max_queued_bytes,
  all_empty, depth, fire_event,
}

-- The position in the queue, or an exception. `zero_division` is raised by the watermark test of a
-- tier with `max_depth: 0`.
pub data Enqueued : Type 0 where
  position : ℕ → Enqueued
  queue_paused : Tier → Enqueued
  queue_full queue_over_capacity : Tier → ℕ → Enqueued
  zero_division : Enqueued

-- `asyncio.Queue.full`: a queue with maxsize 0 is never full.
abbrev pub is_full : Manager → Tier → Bool
is_full m t =
    let max_depth = (tier_config m.config t).max_depth in
    not (max_depth == 0) && leb max_depth (depth m t)

abbrev over_bytes : Manager → QueueItem → Bool
over_bytes m item = ltb (max_queued_bytes m) (m.queued_bytes + item.nbytes) && not (all_empty m)

abbrev pub count_rejected : Tier → Manager → Manager
count_rejected t m = record m {
  stats = put m.stats t (record (at m.stats t) { rejected = (at m.stats t).rejected + 1 });
}

-- The item goes to the end of its queue, with its position.
unfoldable pub admit : QueueItem → Manager → Manager
admit item m = record m {
  queues =
      put m.queues item.tier
        (at m.queues item.tier ++ record item { position = depth m item.tier + 1 } ∷ []);
  queued_bytes = m.queued_bytes + item.nbytes;
  has_items = true;
}

-- The depth of the tier has reached its watermark.
abbrev at_watermark : Manager → Tier → Bool
at_watermark m t =
    let c = tier_config m.config t in leb (c.high_watermark_pct * c.max_depth) (depth m t * 100)

unfoldable pub check_watermark : Tier → Manager → Manager
check_watermark t m =
    if at_watermark m t
    then (if at m.watermark_fired t
        then m
        else fire_event (high_watermark t (depth m t))
            (record m { watermark_fired = put m.watermark_fired t true }))
    else record m { watermark_fired = put m.watermark_fired t false }

unfoldable pub enqueue : QueueItem → Manager → Enqueued × Manager
enqueue item m =
    let t = item.tier in
    if at m.paused t
    then (queue_paused t, m)
    else if is_full m t
    then (queue_full t m.config.overflow_status_code, fire_event (full t) (count_rejected t m))
    else if over_bytes m item
    then (
      queue_over_capacity t m.config.overflow_status_code,
      fire_event (over_capacity t) (count_rejected t m),
    )
    else if (tier_config m.config t).max_depth == 0
    then (zero_division, admit item m)
    else (position (depth m t + 1), check_watermark t (admit item m))
