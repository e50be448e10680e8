-- ===== src/Queue/Refinement.antt =====
-- The queue manager as an implementation of a priority queue, over runs.
use mathlib.Core.List.{append_assoc}
use ollama_queue_proxy.Prelude.{
  ℕ, ◌≡◌, refl, sym, ap, ◌∙◌, subst, ◌⊎◌, inl, inr, Bool, true, false, Option, none, some, List, [],
  ◌∷◌, ◌++◌, arith, Bool-cases, Option-cases, get_elem?,
}
use ollama_queue_proxy.Config.{QueueConfig}
use ollama_queue_proxy.Priority.{Tier, high, normal, low}
use ollama_queue_proxy.Queue.State.{Manager, QueueItem, PerTier, at, put, init}
use ollama_queue_proxy.Queue.Enqueue.{enqueue}
use ollama_queue_proxy.Queue.Worker.{take, Dispatched}
use ollama_queue_proxy.Queue.Control.{set_paused, pause, resume, flush}
use ollama_queue_proxy.Queue.Flush.{drop_head, flush-keeps}
use ollama_queue_proxy.Queue.Progress.{step-takes}
use ollama_queue_proxy.Queue.Contents.{
  contents, push, LeftOf, Filed, filed, admit-push, admit-Filed, rest-Filed, enqueue-queues,
  take-queues, finish-queues,
}
use ollama_queue_proxy.Queue.Steps.{
  Loop, Action, submits, takes, finishes, cancels, pauses, resumes, flushes, submit, complete,
  cancel, step, run, start, new_item, can_take,
}

-- What an action may do to a priority queue.
pub Serves : Action → List QueueItem → List QueueItem → Type 0
Serves (submits tier now id n) xs ys =
    (ys ≡ xs)
    ⊎ ((item : QueueItem) × (item.tier ≡ tier)
        × (item.request_id ≡ id)
        × (item.nbytes ≡ n)
        × (ys ≡ push item xs))
Serves (takes now) xs ys = (ys ≡ xs) ⊎ ((x : QueueItem) × (xs ≡ x ∷ ys))
Serves (flushes t) xs ys = LeftOf ys xs
Serves _ xs ys = ys ≡ xs

-- A run of the priority queue, one action after the other.
pub Serving : List Action → List QueueItem → List QueueItem → Type 0
unfolding Serves
Serving [] xs zs = zs ≡ xs
Serving (a ∷ rest) xs zs = (ys : List QueueItem) × Serves a xs ys × Serving rest ys zs

LeftOf-self : (xs : List QueueItem) → LeftOf xs xs
LeftOf-self [] = refl
LeftOf-self (x ∷ xs) = inr (xs, refl, LeftOf-self xs)

tail_eq : (x y : QueueItem) (xs ys : List QueueItem) → x ∷ xs ≡ y ∷ ys → xs ≡ ys
tail_eq x y xs ys e = cc

head_eq : (x y : QueueItem) (xs ys : List QueueItem) → x ∷ xs ≡ y ∷ ys → x ≡ y
head_eq x y xs ys e = cc

-- To leave out one item more.
LeftOf-drop :
    (a : List QueueItem) (x : QueueItem) (b c : List QueueItem)
    → LeftOf (a ++ x ∷ b) c
    → LeftOf (a ++ b) c
LeftOf-drop [] x b [] h = absurd (cc)
LeftOf-drop (y ∷ a) x b [] h = absurd (cc)
LeftOf-drop a x b (c ∷ cs) (inl h) = inl (LeftOf-drop a x b cs h)
LeftOf-drop [] x b (c ∷ cs) (inr (zs, e, h)) =
    inl (subst (λ l. LeftOf l cs) (sym (tail_eq x c b zs e)) h)
LeftOf-drop (y ∷ a) x b (c ∷ cs) (inr (zs, e, h)) = inr (
  a ++ b,
  ap (λ w. w ∷ (a ++ b)) (head_eq y c (a ++ x ∷ b) zs e),
  LeftOf-drop a x b cs (subst (λ l. LeftOf l cs) (sym (tail_eq y c (a ++ x ∷ b) zs e)) h),
)

put-LeftOf :
    (t : Tier) (x : QueueItem) (rest : List QueueItem) (q : PerTier (List QueueItem))
    (c : List QueueItem)
    → at q t ≡ x ∷ rest
    → LeftOf (contents q) c
    → LeftOf (contents (put q t rest)) c
put-LeftOf high x rest q c e h =
    LeftOf-drop [] x (rest ++ (q.at_normal ++ q.at_low)) c
      (subst (λ l. LeftOf l c) (ap (λ l. l ++ (q.at_normal ++ q.at_low)) e) h)
put-LeftOf normal x rest q c e h =
    LeftOf-drop q.at_high x (rest ++ q.at_low) c
      (subst (λ l. LeftOf l c) (ap (λ l. q.at_high ++ (l ++ q.at_low)) e) h)
put-LeftOf low x rest q c e h =
    subst (λ l. LeftOf l c) (append_assoc q.at_high q.at_normal rest)
      (LeftOf-drop (q.at_high ++ q.at_normal) x rest c (
        subst (λ l. LeftOf l c)
          (ap (λ l. q.at_high ++ (q.at_normal ++ l)) e
            ∙ sym (append_assoc q.at_high q.at_normal (x ∷ rest)))
          h))

-- What a flush keeps, from the contents `c` on.
record Flushing (c : List QueueItem) (m : Manager) : Type 0 where
  still_filed : Filed m.queues
  left_of : LeftOf (contents m.queues) c

drop_head-queues :
    (t : Tier) (item : QueueItem) (rest : List QueueItem) (m : Manager)
    → (drop_head t item rest m).1.queues ≡ put m.queues t rest
drop_head-queues t item rest m = ground arith

put-nothing : (t : Tier) (q : PerTier (List QueueItem)) → at q t ≡ [] → put q t [] ≡ q
put-nothing high q e = ground arith
put-nothing normal q e = ground arith
put-nothing low q e = ground arith

flush-Flushing :
    (t : Option Tier) (m : Manager)
    → Filed m.queues
    → Flushing (contents m.queues) (flush t m).after
flush-Flushing t m f =
    flush-keeps (Flushing (contents m.queues))
      (λ u item rest n e h. record {
        still_filed =
            subst Filed (sym (drop_head-queues u item rest n))
              (rest-Filed u item rest n.queues e h.still_filed);
        left_of =
            subst (λ q. LeftOf (contents q) (contents m.queues))
              (sym (drop_head-queues u item rest n))
              (put-LeftOf u item rest n.queues (contents m.queues) e h.left_of);
      })
      (λ u n e h. record {
        still_filed = subst Filed (sym (put-nothing u n.queues e)) h.still_filed;
        left_of =
            subst (λ q. LeftOf (contents q) (contents m.queues)) (sym (put-nothing u n.queues e))
              h.left_of;
      })
      t m (record { still_filed = f; left_of = LeftOf-self (contents m.queues) })

-- An action on the manager is one on the priority queue.
abbrev Refines : Action → Manager → Manager → Type 0
Refines a m n = Filed n.queues × Serves a (contents m.queues) (contents n.queues)

enqueue-Refines :
    (item : QueueItem) (m : Manager)
    → Filed m.queues
    → Filed (enqueue item m).1.queues
      × ((contents (enqueue item m).1.queues ≡ contents m.queues)
          ⊎ (contents (enqueue item m).1.queues ≡ push (filed item m) (contents m.queues)))
enqueue-Refines item m f = elim (enqueue-queues item m) [
  | inl e ↦ (subst Filed (sym e) f, inl (ap contents e))
  | inr e ↦ (
    subst Filed (sym e) (admit-Filed item m f),
    inr (ap contents e ∙ admit-push item.tier item m refl f),
  )
]

take-Refines : (now : ℕ) (m : Manager) → Filed m.queues → Refines (takes now) m (take now m).1
unfolding Serves
take-Refines now m f =
    elim (take-queues m.queues.at_high m.queues.at_normal m.queues.at_low now m refl refl refl) [
      | inl e ↦ (subst Filed (sym e) f, inl (ap contents e))
      | inr (t, x, rest, head, e, split) ↦ (
        subst Filed (sym e) (rest-Filed t x rest m.queues head f),
        inr (x, split ∙ ap (λ l. x ∷ l) (sym (ap contents e))),
      )
    ]

-- The same queues, the same contents.
same-Refines :
    (m n : Manager)
    → n.queues ≡ m.queues
    → Filed m.queues
    → Filed n.queues × (contents n.queues ≡ contents m.queues)
same-Refines m n e f = (subst Filed (sym e) f, ap contents e)

queues-complete :
    (now i : ℕ) (d : Dispatched) (l : Loop) → (complete now i d l).manager.queues ≡ l.manager.queues
unfolding complete
queues-complete now i d l = elim (Option-cases (get_elem? l.running i)) [
  | inl e ↦ rw (e, complete) refl
  | inr (item, e) ↦ rw (e, complete) (finish-queues now item d l.manager)
]

queues-cancel : (f : ℕ) (l : Loop) → (cancel f l).manager.queues ≡ l.manager.queues
unfolding cancel
queues-cancel f l = ground arith

queues-paused : (b : Bool) (t : Option Tier) (m : Manager) → (set_paused b t m).queues ≡ m.queues
queues-paused b none m = refl
queues-paused b (some t) m = refl

step-Refines :
    (a : Action) (l : Loop) → Filed l.manager.queues → Refines a l.manager (step a l).manager
unfolding step Serves submit pause resume
step-Refines (submits tier now id n) l f =
    let item = new_item l tier now id n in
    let (g, outcome) = enqueue-Refines item l.manager f in
    (g, elim outcome [ inl e ↦ inl e | inr e ↦ inr (filed item l.manager, refl, refl, refl, e) ])
step-Refines (takes now) l f = elim (Bool-cases (can_take l)) [
  | inl e ↦
      subst (Refines (takes now) l.manager) (sym (step-takes now l e))
        (take-Refines now l.manager f)
  | inr e ↦ rw (e, step) (f, inl refl)
]
step-Refines (finishes now i d) l f =
    same-Refines l.manager (complete now i d l).manager (queues-complete now i d l) f
step-Refines (cancels c) l f = same-Refines l.manager (cancel c l).manager (queues-cancel c l) f
step-Refines (pauses t) l f =
    same-Refines l.manager (set_paused true t l.manager) (queues-paused true t l.manager) f
step-Refines (resumes t) l f =
    same-Refines l.manager (set_paused false t l.manager) (queues-paused false t l.manager) f
step-Refines (flushes t) l f = let g = flush-Flushing t l.manager f in (g.still_filed, g.left_of)

run-Serving :
    (actions : List Action) (l : Loop)
    → Filed l.manager.queues
    → Serving actions (contents l.manager.queues) (contents (run actions l).manager.queues)
unfolding run Serving
run-Serving [] l f = refl
run-Serving (a ∷ rest) l f =
    let (g, s) = step-Refines a l f in
    (contents (step a l).manager.queues, s, run-Serving rest (step a l) g)

-- Every run of the queue manager, with its three queues, is a run of one priority queue that starts
-- empty: a submitted request is refused or goes behind all of its own priority or above, a worker's
-- turn takes the first of all or nothing, a flush only leaves items out, and nothing else changes what
-- waits or its order.
pub run_refines :
    (config : QueueConfig) (max_concurrent : ℕ) (actions : List Action)
    → Serving actions [] (contents (run actions (start config max_concurrent)).manager.queues)
unfolding start init
run_refines config n actions =
    run-Serving actions (start config n) (record { all_high = tt; all_normal = tt; all_low = tt })
