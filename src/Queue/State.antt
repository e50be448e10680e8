-- ===== src/Queue/State.antt =====
-- The state of `PriorityQueueManager` in src/ollama_queue_proxy/queue.py.
use ollama_queue_proxy.Prelude.{
  ℕ, ◌*◌, String, Bool, true, false, ◌&&◌, List, [], ◌∷◌, length, is_empty, ◌==◌, if◌then◌else◌,
}
use ollama_queue_proxy.Http.{Answer}
use ollama_queue_proxy.Priority.{Tier, high, normal, low}
use ollama_queue_proxy.Config.{TierConfig, QueueConfig}

-- `future` is the identity of the asyncio.Future that the request waits for.
pub record QueueItem : Type 0 where
  pub tier : Tier
  pub enqueue_time : ℕ
  pub request_id : String
  pub future : ℕ
  pub position : ℕ
  pub nbytes : ℕ

-- `recent_waits` holds the latest 20 waits, the oldest first.
pub record TierStats : Type 0 where
  pub processed : ℕ
  pub rejected : ℕ
  pub expired : ℕ
  pub recent_waits : List ℕ

-- A dictionary whose keys are the three tiers.
pub record PerTier {ℓ} (A : Type ℓ) : Type ℓ where
  pub at_high : A
  pub at_normal : A
  pub at_low : A

module _ {ℓ} {A : Type ℓ} where
  abbrev pub at : PerTier A → Tier → A
  at d high = d.at_high
  at d normal = d.at_normal
  at d low = d.at_low

  abbrev pub put : PerTier A → Tier → A → PerTier A
  put d high a = record d { at_high = a }
  put d normal a = record d { at_normal = a }
  put d low a = record d { at_low = a }

  abbrev pub each : A → PerTier A
  each a = record { at_high = a; at_normal = a; at_low = a }

pub data QueueError : Type 0 where
  request_expired queue_flushed dispatch_error : QueueError

pub data FutureState : Type 0 where
  pending cancelled : FutureState
  result : Answer → FutureState
  exception : QueueError → FutureState

abbrev pub is_pending : FutureState → Bool
is_pending pending = true
is_pending _ = false

-- The events that `_fire_event` hands to the callbacks.
pub data QueueEvent : Type 0 where
  full over_capacity : Tier → QueueEvent
  high_watermark : Tier → ℕ → QueueEvent
  drained : QueueEvent

-- `futures` is the state of the event loop's futures; `events` is what was fired, the latest first.
pub record Manager : Type 0 where
  pub config : QueueConfig
  pub max_concurrent : ℕ
  pub queues : PerTier (List QueueItem)
  pub paused : PerTier Bool
  pub stats : PerTier TierStats
  pub semaphore : ℕ
  pub active : ℕ
  pub has_items : Bool
  pub queued_bytes : ℕ
  pub watermark_fired : PerTier Bool
  pub futures : ℕ → FutureState
  pub events : List QueueEvent

abbrev no_stats : TierStats
no_stats = record { processed = 0; rejected = 0; expired = 0; recent_waits = [] }

-- `__init__`
unfoldable pub init : QueueConfig → ℕ → Manager
init config max_concurrent = record {
  config = config;
  max_concurrent = max_concurrent;
  queues = each [];
  paused = each false;
  stats = each no_stats;
  semaphore = max_concurrent;
  active = 0;
  has_items = false;
  queued_bytes = 0;
  watermark_fired = each false;
  futures = λ f. pending;
  events = [];
}

abbrev pub tier_config : QueueConfig → Tier → TierConfig
tier_config c high = c.high
tier_config c normal = c.normal
tier_config c low = c.low

abbrev pub max_queued_bytes : Manager → ℕ
max_queued_bytes m = m.config.max_queued_mb * 1024 * 1024

-- `_all_empty`
abbrev pub all_empty : Manager → Bool
all_empty m = is_empty m.queues.at_high && is_empty m.queues.at_normal && is_empty m.queues.at_low

abbrev pub depth : Manager → Tier → ℕ
depth m t = length (at m.queues t)

-- `_fire_event`
abbrev pub fire_event : QueueEvent → Manager → Manager
fire_event e m = record m { events = e ∷ m.events }

-- Writes the state of one future, of one that is pending: asyncio refuses a second outcome, and each
-- use tests for that first.
abbrev pub settle : ℕ → FutureState → Manager → Manager
settle f s m = record m { futures = λ g. if f == g then s else m.futures g }
