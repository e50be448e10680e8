-- ===== src/Queue/Contents.antt =====
-- The queues as one list: a priority queue in which workers see what comes first.
use ollama_queue_proxy.Prelude.{
  ℕ, ◌+◌, ◌≤◌, ◌<◌, ◌≡◌, refl, subst, ◌⊎◌, inl, inr, List, [], ◌∷◌, ◌++◌, All, All-append, ltb,
  if◌then◌else◌, arith,
}
use mathlib.Core.List.{append_assoc}
use ollama_queue_proxy.Priority.{Tier, high, normal, low, priority_order}
use ollama_queue_proxy.Queue.State.{Manager, QueueItem, PerTier, at, put, depth}
use ollama_queue_proxy.Queue.Worker.{get_nowait, take, finish, Dispatched, returned, raised}
use ollama_queue_proxy.Queue.Enqueue.{enqueue, admit, check_watermark}

-- All that waits, in the order in which it is served.
abbrev pub contents : PerTier (List QueueItem) → List QueueItem
contents q = q.at_high ++ (q.at_normal ++ q.at_low)

-- The priority queue: an item goes behind all of its own priority or above.
pub push : QueueItem → List QueueItem → List QueueItem
push item [] = item ∷ []
push item (x ∷ xs) =
    let later = push item xs in
    if ltb (priority_order x.tier) (priority_order item.tier) then item ∷ x ∷ xs else x ∷ later

-- `ys` is `xs` with some items left out.
abbrev pub LeftOf : List QueueItem → List QueueItem → Type 0
LeftOf ys [] = ys ≡ []
LeftOf ys (x ∷ xs) = LeftOf ys xs ⊎ ((zs : List QueueItem) × (ys ≡ x ∷ zs) × LeftOf zs xs)

-- Every item waits in the queue of its tier.
pub record Filed (q : PerTier (List QueueItem)) : Type 0 where
  pub all_high : All (λ (x : QueueItem). x.tier ≡ high) q.at_high
  pub all_normal : All (λ (x : QueueItem). x.tier ≡ normal) q.at_normal
  pub all_low : All (λ (x : QueueItem). x.tier ≡ low) q.at_low

push-above :
    (item : QueueItem) (xs ys : List QueueItem) (t : Tier)
    → All (λ (x : QueueItem). x.tier ≡ t) xs
    → priority_order item.tier ≤ priority_order t
    → push item (xs ++ ys) ≡ xs ++ push item ys
unfolding push
push-above item [] ys t h le = refl
push-above item (x ∷ xs) ys t h le = ground (arith, push-above item xs ys t h.1 le)

push-below :
    (item : QueueItem) (xs : List QueueItem) (t : Tier)
    → All (λ (x : QueueItem). x.tier ≡ t) xs
    → priority_order t < priority_order item.tier
    → push item xs ≡ item ∷ xs
unfolding push
push-below item [] t h lt = refl
push-below item (x ∷ xs) t h lt = ground arith

push-below_two :
    (item : QueueItem) (xs ys : List QueueItem) (t u : Tier)
    → All (λ (x : QueueItem). x.tier ≡ t) xs
    → All (λ (x : QueueItem). x.tier ≡ u) ys
    → priority_order t < priority_order item.tier
    → priority_order u < priority_order item.tier
    → push item (xs ++ ys) ≡ item ∷ (xs ++ ys)
unfolding push
push-below_two item [] ys t u h k lt lu = push-below item ys u k lu
push-below_two item (x ∷ xs) ys t u h k lt lu = ground arith

push_end :
    (item : QueueItem) (xs : List QueueItem)
    → item.tier ≡ low
    → All (λ (x : QueueItem). x.tier ≡ low) xs
    → push item xs ≡ xs ++ item ∷ []
unfolding push priority_order
push_end item [] e h = refl
push_end item (x ∷ xs) e h = ground (arith, push_end item xs e h.1)

-- The item as it is filed.
abbrev pub filed : QueueItem → Manager → QueueItem
filed item m = record item { position = depth m item.tier + 1 }

pub admit-push :
    (t : Tier) (item : QueueItem) (m : Manager)
    → item.tier ≡ t
    → Filed m.queues
    → contents (admit item m).queues ≡ push (filed item m) (contents m.queues)
unfolding admit priority_order
admit-push high item m e f =
    let x = filed item m in
    let h = m.queues.at_high in
    let n = m.queues.at_normal in
    let l = m.queues.at_low in
    ground (
      arith,
      push-above x h (n ++ l) high f.all_high (ground arith),
      push-below_two x n l normal low f.all_normal f.all_low (ground arith) (ground arith),
      append_assoc h (x ∷ []) (n ++ l),
    )
admit-push normal item m e f =
    let x = filed item m in
    let h = m.queues.at_high in
    let n = m.queues.at_normal in
    let l = m.queues.at_low in
    ground (
      arith,
      push-above x h (n ++ l) high f.all_high (ground arith),
      push-above x n l normal f.all_normal (ground arith),
      push-below x l low f.all_low (ground arith),
      append_assoc n (x ∷ []) l,
    )
admit-push low item m e f =
    let x = filed item m in
    let h = m.queues.at_high in
    let n = m.queues.at_normal in
    let l = m.queues.at_low in
    ground (
      arith,
      push-above x h (n ++ l) high f.all_high (ground arith),
      push-above x n l normal f.all_normal (ground arith),
      push_end x l e f.all_low,
    )

-- One more item of its own tier at the end.
abbrev pub IsTier : Tier → QueueItem → Type 0
IsTier t x = x.tier ≡ t

pub put-Filed :
    (t : Tier) (x : QueueItem) (q : PerTier (List QueueItem))
    → x.tier ≡ t
    → Filed q
    → Filed (put q t (at q t ++ x ∷ []))
put-Filed high x q e f = record {
  all_high = All-append (IsTier high) q.at_high (x ∷ []) f.all_high (e, tt);
  all_normal = f.all_normal;
  all_low = f.all_low;
}
put-Filed normal x q e f = record {
  all_high = f.all_high;
  all_normal = All-append (IsTier normal) q.at_normal (x ∷ []) f.all_normal (e, tt);
  all_low = f.all_low;
}
put-Filed low x q e f = record {
  all_high = f.all_high;
  all_normal = f.all_normal;
  all_low = All-append (IsTier low) q.at_low (x ∷ []) f.all_low (e, tt);
}

-- The same queues without the head of one.
pub rest-Filed :
    (t : Tier) (x : QueueItem) (rest : List QueueItem) (q : PerTier (List QueueItem))
    → at q t ≡ x ∷ rest
    → Filed q
    → Filed (put q t rest)
rest-Filed high x rest q e f = record {
  all_high = (subst (All (IsTier high)) e f.all_high).1;
  all_normal = f.all_normal;
  all_low = f.all_low;
}
rest-Filed normal x rest q e f = record {
  all_high = f.all_high;
  all_normal = (subst (All (IsTier normal)) e f.all_normal).1;
  all_low = f.all_low;
}
rest-Filed low x rest q e f = record {
  all_high = f.all_high;
  all_normal = f.all_normal;
  all_low = (subst (All (IsTier low)) e f.all_low).1;
}

pub admit-Filed : (item : QueueItem) (m : Manager) → Filed m.queues → Filed (admit item m).queues
unfolding admit
admit-Filed item m f = put-Filed item.tier (filed item m) m.queues refl f

pub enqueue-queues :
    (item : QueueItem) (m : Manager)
    → ((enqueue item m).1.queues ≡ m.queues) ⊎ ((enqueue item m).1.queues ≡ (admit item m).queues)
unfolding enqueue check_watermark
enqueue-queues item m = ground arith

pub finish-queues :
    (now : ℕ) (item : QueueItem) (d : Dispatched) (m : Manager)
    → (finish now item d m).queues ≡ m.queues
unfolding finish
finish-queues now item (returned a) m = ground arith
finish-queues now item raised m = ground arith

-- What a worker's turn does to the queues.
pub take-queues :
    (a b c : List QueueItem) (now : ℕ) (m : Manager)
    → m.queues.at_high ≡ a
    → m.queues.at_normal ≡ b
    → m.queues.at_low ≡ c
    → ((take now m).1.queues ≡ m.queues)
      ⊎ ((t : Tier) × (x : QueueItem) × (rest : List QueueItem) × (at m.queues t ≡ x ∷ rest)
          × ((take now m).1.queues ≡ put m.queues t rest)
          × (contents m.queues ≡ x ∷ contents (put m.queues t rest)))
unfolding take get_nowait
take-queues (x ∷ a) b c now m p q r = inr (high, x, a, ground arith, ground arith, ground arith)
take-queues [] (x ∷ b) c now m p q r = inr (normal, x, b, ground arith, ground arith, ground arith)
take-queues [] [] (x ∷ c) now m p q r = inr (low, x, c, ground arith, ground arith, ground arith)
take-queues [] [] [] now m p q r = inl (ground arith)
