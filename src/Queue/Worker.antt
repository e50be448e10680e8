-- ===== src/Queue/Worker.antt =====
-- `_worker` of src/ollama_queue_proxy/queue.py, as the segments that run between two awaits: the
-- one that takes an item, and the one that follows the end of its dispatch.
use ollama_queue_proxy.Prelude.{
  ℕ, ◌+◌, ◌-◌, ◌*◌, Bool, true, false, List, [], ◌∷◌, ◌++◌, length, ltb, leb, if◌then◌else◌, Option,
  none, some,
}
use ollama_queue_proxy.Clock.{second}
use ollama_queue_proxy.Http.{Answer}
use ollama_queue_proxy.Priority.{Tier, high, normal, low}
use ollama_queue_proxy.Queue.State.{
  Manager, QueueItem, QueueError, request_expired, dispatch_error, result, exception, is_pending,
  at, put, drained, tier_config, all_empty, fire_event, settle,
}

-- `get_nowait` on the tiers in the order of `TIERS`.
unfoldable pub get_nowait : Manager → Option (QueueItem × Manager)
get_nowait m = elim m.queues.at_high [
  | item ∷ rest ↦ some (item, record m { queues = put m.queues high rest })
  | [] ↦ elim m.queues.at_normal [
    | item ∷ rest ↦ some (item, record m { queues = put m.queues normal rest })
    | [] ↦ elim m.queues.at_low [
      | item ∷ rest ↦ some (item, record m { queues = put m.queues low rest })
      | [] ↦ none
    ]
  ]
]

-- "Check if queues drained", at the end of a round.
abbrev check_drained : Manager → Manager
check_drained m = if all_empty m then fire_event drained m else m

-- The end of a round: `_active` goes down, and the semaphore is released.
end_round : Manager → Manager
end_round m =
    let m' = check_drained (record m { active = m.active - 1 }) in
    record m' { semaphore = m'.semaphore + 1 }

-- `set_exception` on a future that is done raises InvalidStateError.
abbrev pub set_exception : ℕ → QueueError → Manager → Bool × Manager
set_exception f e m =
    if is_pending (m.futures f) then (true, settle f (exception e) m) else (false, m)

-- What a worker does next.
pub data Round : Type 0 where
  waits : Round
  dispatches : QueueItem → Round
  dies : Round

abbrev count_expired : Tier → Manager → Manager
count_expired t m = record m {
  stats = put m.stats t (record (at m.stats t) { expired = (at m.stats t).expired + 1 });
}

abbrev is_expired : ℕ → QueueItem → Manager → Bool
is_expired now item m =
    ltb ((tier_config m.config item.tier).max_wait * second) (now - item.enqueue_time)

-- The exception leaves the worker's loop: the semaphore is released on the way, `_active` is not
-- lowered.
expire : QueueItem → Manager → Round × Manager
unfolding end_round
expire item m =
    let (done, m') = set_exception item.future request_expired (count_expired item.tier m) in
    if done then (waits, end_round m') else (dies, record m' { semaphore = m'.semaphore + 1 })

-- From `async with self._semaphore` to the next await that suspends.
unfoldable pub take : ℕ → Manager → Round × Manager
unfolding expire
take now m = elim (get_nowait m) [
  | none ↦ (waits, if all_empty m then record m { has_items = false } else m)
  | some (item, m') ↦
      (let taken = record m' {
        semaphore = m'.semaphore - 1;
        queued_bytes = m'.queued_bytes - item.nbytes;
        active = m'.active + 1;
      } in
        if is_expired now item taken then expire item taken else (dispatches item, taken))
]

-- How `dispatch_fn` ends.
pub data Dispatched : Type 0 where
  returned : Answer → Dispatched
  raised : Dispatched

-- `deque(maxlen=20).append`
abbrev append_wait : ℕ → List ℕ → List ℕ
append_wait w [] = w ∷ []
append_wait w (x ∷ xs) = if leb 20 (length (x ∷ xs)) then xs ++ w ∷ [] else (x ∷ xs) ++ w ∷ []

abbrev count_processed : Tier → ℕ → Manager → Manager
count_processed t wait m =
    let s = at m.stats t in
    record m {
      stats = put m.stats t (record s {
        processed = s.processed + 1;
        recent_waits = append_wait wait s.recent_waits;
      });
    }

-- From the end of `await item.dispatch_fn()` to the head of the loop.
unfoldable pub finish : ℕ → QueueItem → Dispatched → Manager → Manager
unfolding end_round
finish now item (returned answer) m =
    let m' =
      if is_pending (m.futures item.future) then settle item.future (result answer) m else m in
    end_round (count_processed item.tier (now - item.enqueue_time) m')
finish now item raised m = end_round (
    if is_pending (m.futures item.future)
    then settle item.future (exception dispatch_error) m
    else m)
