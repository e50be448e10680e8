-- ===== src/Queue/Flush.antt =====
-- An induction rule for `flush`: what each dropped item keeps, the whole flush keeps.
use ollama_queue_proxy.Prelude.{
  ℕ, ◌+◌, ◌≡◌, refl, Bool, true, List, [], ◌∷◌, Option, none, some, arith, Bool-cases, inl, inr,
}
use ollama_queue_proxy.Priority.{Tier, high, normal, low}
use ollama_queue_proxy.Queue.State.{Manager, QueueItem, PerTier, at, put, queue_flushed}
use ollama_queue_proxy.Queue.Worker.{set_exception}
use ollama_queue_proxy.Queue.Control.{flush, flush_items, flush_tier, Flushed}

pub at-put_self {ℓ} : {A : Type ℓ} (d : PerTier A) (t : Tier) (a : A) → at (put d t a) t ≡ a
at-put_self d high a = refl
at-put_self d normal a = refl
at-put_self d low a = refl

at-put_ne {ℓ} :
    {A : Type ℓ} (d : PerTier A) (t u : Tier) (a : A) → (t ≡ u → ⊥) → at (put d t a) u ≡ at d u
at-put_ne d high high a n = absurd (n refl)
at-put_ne d high normal a n = refl
at-put_ne d high low a n = refl
at-put_ne d normal high a n = refl
at-put_ne d normal normal a n = absurd (n refl)
at-put_ne d normal low a n = refl
at-put_ne d low high a n = refl
at-put_ne d low normal a n = refl
at-put_ne d low low a n = absurd (n refl)

-- The manager after `get_nowait` and `set_exception` on the head of a queue.
abbrev pub drop_head : Tier → QueueItem → List QueueItem → Manager → Bool × Manager
drop_head t item rest m =
    set_exception item.future queue_flushed (record m { queues = put m.queues t rest })

queues-drop_head :
    (t : Tier) (item : QueueItem) (rest : List QueueItem) (m : Manager)
    → at (drop_head t item rest m).1.queues t ≡ rest
queues-drop_head high item rest m = ground arith
queues-drop_head normal item rest m = ground arith
queues-drop_head low item rest m = ground arith

module _ {ℓ} (P : Manager → Type ℓ)
    (pop : (t : Tier) (item : QueueItem) (rest : List QueueItem) (m : Manager)
      → at m.queues t ≡ item ∷ rest
      → P m
      → P (drop_head t item rest m).1)
    (clear : (t : Tier) (m : Manager)
      → at m.queues t ≡ []
      → P m
      → P (record m { queues = put m.queues t [] })) where
  pub flush_items-keeps :
      (t : Tier) (items : List QueueItem) (dropped : ℕ) (m : Manager)
      → at m.queues t ≡ items
      → P m
      → P (flush_items t items dropped m).after
  unfolding flush_items
  flush_items-keeps t [] dropped m q h = clear t m q h
  flush_items-keeps t (item ∷ rest) dropped m q h = elim (Bool-cases (drop_head t item rest m).0) [
    | inl e ↦ rw e (
        flush_items-keeps t rest (dropped + 1) (drop_head t item rest m).1
          (queues-drop_head t item rest m) (pop t item rest m q h))
    | inr e ↦ rw e (pop t item rest m q h)
  ]

  pub flush_tier-keeps : (t : Tier) (f : Flushed) → P f.after → P (flush_tier t f).after
  unfolding flush_tier
  flush_tier-keeps t f h = elim (Bool-cases f.completed) [
    | inl e ↦
        rw (e, flush_tier) (flush_items-keeps t (at f.after.queues t) f.dropped f.after refl h)
    | inr e ↦ rw (e, flush_tier) h
  ]

  pub flush-keeps : (t : Option Tier) (m : Manager) → P m → P (flush t m).after
  unfolding flush
  flush-keeps none m h = flush_tier-keeps low _ (
      flush_tier-keeps normal _
        (flush_tier-keeps high (record { dropped = 0; completed = true; after = m }) h))
  flush-keeps (some t) m h =
      flush_tier-keeps t (record { dropped = 0; completed = true; after = m }) h
