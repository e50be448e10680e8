-- ===== src/Queue/Bytes.antt =====
-- The ceiling on queued bytes.
use ollama_queue_proxy.Prelude.{
  ℕ, suc, ◌+◌, ◌-◌, ◌≤◌, ◌≡◌, ◌⊎◌, inl, inr, refl, true, false, ◌&&◌, List, [], ◌∷◌, ◌++◌, length,
  length-append, arith, is_empty,
}
use ollama_queue_proxy.Priority.{Tier, high, normal, low}
use ollama_queue_proxy.Queue.State.{
  Manager, QueueItem, depth, all_empty, max_queued_bytes, fire_event, QueueEvent, full,
  over_capacity,
}
use ollama_queue_proxy.Queue.Enqueue.{position, enqueue, admit, check_watermark, count_rejected}
use ollama_queue_proxy.Queue.Worker.{get_nowait, take}

unfoldable pub bytes : List QueueItem → ℕ
bytes [] = 0
bytes (item ∷ items) = item.nbytes + bytes items

bytes-append : (xs ys : List QueueItem) → bytes (xs ++ ys) ≡ bytes xs + bytes ys
unfolding bytes
bytes-append [] ys = omega arith
bytes-append (x ∷ xs) ys = omega (arith, bytes-append xs ys)

-- The bytes that wait in the queues, and the requests.
unfoldable pub waiting_bytes : Manager → ℕ
waiting_bytes m = bytes m.queues.at_high + bytes m.queues.at_normal + bytes m.queues.at_low

abbrev pub waiting : Manager → ℕ
waiting m = depth m high + depth m normal + depth m low

-- One item less, and its bytes with it; or nothing moved.
abbrev Taken : Manager → Manager → Type 0
Taken m n =
    ((n.queued_bytes ≡ m.queued_bytes)
      × (waiting_bytes n ≡ waiting_bytes m)
      × (waiting n ≡ waiting m))
    ⊎ ((b : ℕ) × (n.queued_bytes ≡ m.queued_bytes - b)
        × (waiting_bytes m ≡ b + waiting_bytes n)
        × (waiting m ≡ suc (waiting n)))

pub taken :
    (a b c : List QueueItem) (now : ℕ) (m : Manager)
    → m.queues.at_high ≡ a
    → m.queues.at_normal ≡ b
    → m.queues.at_low ≡ c
    → Taken m (take now m).1
unfolding take get_nowait waiting_bytes bytes
taken (x ∷ a) b c now m p q r = inr (x.nbytes, ground arith, ground arith, ground arith)
taken [] (x ∷ b) c now m p q r = inr (x.nbytes, ground arith, ground arith, ground arith)
taken [] [] (x ∷ c) now m p q r = inr (x.nbytes, ground arith, ground arith, ground arith)
taken [] [] [] now m p q r = inl (ground arith, ground arith, ground arith)

-- One item more, within the ceiling or alone; or nothing moved.
abbrev Admitted : ℕ → Manager → Manager → Type 0
Admitted b m n =
    ((n.queued_bytes ≡ m.queued_bytes)
      × (waiting_bytes n ≡ waiting_bytes m)
      × (waiting n ≡ waiting m))
    ⊎ ((n.queued_bytes ≡ m.queued_bytes + b)
        × (waiting_bytes n ≡ waiting_bytes m + b)
        × (waiting n ≡ suc (waiting m))
        × ((n.queued_bytes ≤ max_queued_bytes m) ⊎ (waiting m ≡ 0)))

all_empty-none : (m : Manager) → all_empty m ≡ true → waiting m ≡ 0
all_empty-none m h = ground arith

pub all_empty-waiting : (m : Manager) (k : ℕ) → waiting m ≡ suc k → all_empty m ≡ false
all_empty-waiting m k h = of_lists m.queues.at_high m.queues.at_normal m.queues.at_low h
  where
    of_lists :
        (a b c : List QueueItem)
        → length a + length b + length c ≡ suc k
        → (is_empty a && is_empty b && is_empty c) ≡ false
    of_lists (x ∷ a) b c e = refl
    of_lists [] (x ∷ b) c e = refl
    of_lists [] [] (x ∷ c) e = refl
    of_lists [] [] [] e = absurd (omega arith)

admit-moves :
    (t : Tier) (item : QueueItem) (m : Manager)
    → item.tier ≡ t
    → (waiting_bytes (admit item m) ≡ waiting_bytes m + item.nbytes)
      × (waiting (admit item m) ≡ suc (waiting m))
unfolding admit waiting_bytes bytes
admit-moves high item m e =
    let x = record item { position = depth m item.tier + 1 } ∷ [] in
    ground (arith, bytes-append m.queues.at_high x, length-append m.queues.at_high x)
admit-moves normal item m e =
    let x = record item { position = depth m item.tier + 1 } ∷ [] in
    ground (arith, bytes-append m.queues.at_normal x, length-append m.queues.at_normal x)
admit-moves low item m e =
    let x = record item { position = depth m item.tier + 1 } ∷ [] in
    ground (arith, bytes-append m.queues.at_low x, length-append m.queues.at_low x)

counted-admit :
    (item : QueueItem) (m : Manager)
    → ((admit item m).queued_bytes ≡ m.queued_bytes + item.nbytes)
      × ((admit item m).config ≡ m.config)
unfolding admit
counted-admit item m = (refl, refl)

-- The watermark leaves the queues and the counts.
check_watermark-same :
    (t : Tier) (m : Manager)
    → let n = check_watermark t m in
      (n.queued_bytes ≡ m.queued_bytes) × (n.queues ≡ m.queues) × (n.config ≡ m.config)
unfolding check_watermark
check_watermark-same t m = ground arith

check_watermark-waiting :
    (t : Tier) (m : Manager)
    → (waiting_bytes (check_watermark t m) ≡ waiting_bytes m)
      × (waiting (check_watermark t m) ≡ waiting m)
unfolding check_watermark waiting_bytes
check_watermark-waiting t m = ground arith

unmoved :
    (t : Tier) (e : QueueEvent) (m : Manager)
    → (waiting_bytes (fire_event e (count_rejected t m)) ≡ waiting_bytes m)
      × (waiting (fire_event e (count_rejected t m)) ≡ waiting m)
unfolding waiting_bytes
unmoved t e m = (refl, refl)

pub enqueue-Admitted : (item : QueueItem) (m : Manager) → Admitted item.nbytes m (enqueue item m).1
unfolding enqueue
enqueue-Admitted item m = ground (
  arith,
  admit-moves item.tier item m refl,
  counted-admit item m,
  check_watermark-same item.tier (admit item m),
  check_watermark-waiting item.tier (admit item m),
  unmoved item.tier (full item.tier) m,
  unmoved item.tier (over_capacity item.tier) m,
  all_empty-none m,
)

-- What moves where a request is given a position.
pub enqueue-position :
    (item : QueueItem) (m n : Manager) (p : ℕ)
    → enqueue item m ≡ (position p, n)
    → (n.queued_bytes ≡ m.queued_bytes + item.nbytes)
      × (waiting_bytes n ≡ waiting_bytes m + item.nbytes)
      × (waiting n ≡ suc (waiting m))
      × (n.config ≡ m.config)
unfolding enqueue
enqueue-position item m n p e = ground (
  arith,
  admit-moves item.tier item m refl,
  counted-admit item m,
  check_watermark-same item.tier (admit item m),
  check_watermark-waiting item.tier (admit item m),
)

pub config-enqueue : (item : QueueItem) (m : Manager) → (enqueue item m).1.config ≡ m.config
unfolding enqueue
config-enqueue item m =
    ground (arith, counted-admit item m, check_watermark-same item.tier (admit item m))
