-- ===== src/Queue/Abandoned.antt =====
-- What becomes of a request that is being dispatched when the proxy shuts down.
use ollama_queue_proxy.Prelude.{
  ℕ, ◌<◌, ◌≡◌, ◌≢◌, ◌⊎◌, inl, inr, refl, sym, subst, Bool, true, false, Option, none, some, List,
  [], ◌∷◌, ◌++◌, All, All-append, arith, Bool-cases, is_empty,
}
use ollama_queue_proxy.Priority.{Tier, high, normal, low}
use ollama_queue_proxy.Queue.State.{
  Manager, QueueItem, FutureState, PerTier, at, put, pending, cancelled, is_pending, QueueError,
  result, exception, queue_flushed,
}
use ollama_queue_proxy.Queue.Worker.{set_exception, Dispatched}
use ollama_queue_proxy.Queue.Enqueue.{enqueue, admit, check_watermark}
use ollama_queue_proxy.Queue.Control.{pause, resume, set_paused}
use ollama_queue_proxy.Queue.Contents.{enqueue-queues, filed}
use ollama_queue_proxy.Queue.Flush.{drop_head, flush-keeps}
use ollama_queue_proxy.Queue.Steps.{
  Loop, Action, submits, takes, finishes, cancels, pauses, resumes, flushes, submit, complete,
  cancel, new_item, step, run,
}
use ollama_queue_proxy.Queue.Shutdown.{drained, stop_workers, shut_down}

-- No outcome came but its caller's own going away.
abbrev pub Unanswered : FutureState → Type 0
Unanswered s = (s ≡ pending) ⊎ (s ≡ cancelled)

abbrev IsOther : ℕ → QueueItem → Type 0
IsOther f x = x.future ≢ f

-- The request waits in no queue and has no answer.
abbrev Lost : ℕ → Manager → Type 0
Lost f m =
    All (IsOther f) m.queues.at_high
    × All (IsOther f) m.queues.at_normal
    × All (IsOther f) m.queues.at_low
    × Unanswered (m.futures f)

put-Lost :
    (f : ℕ) (t : Tier) (xs : List QueueItem) (m : Manager)
    → All (IsOther f) xs
    → Lost f m
    → Lost f (record m { queues = put m.queues t xs })
put-Lost f high xs m a (h, n, l, u) = (a, n, l, u)
put-Lost f normal xs m a (h, n, l, u) = (h, a, l, u)
put-Lost f low xs m a (h, n, l, u) = (h, n, a, u)

at-Lost : (f : ℕ) (t : Tier) (m : Manager) → Lost f m → All (IsOther f) (at m.queues t)
at-Lost f high m (h, n, l, u) = h
at-Lost f normal m (h, n, l, u) = n
at-Lost f low m (h, n, l, u) = l

set_exception-Lost :
    (f g : ℕ) (e : QueueError) (m : Manager) → g ≢ f → Lost f m → Lost f (set_exception g e m).1
set_exception-Lost f g e m o (h, n, l, u) = elim (Bool-cases (is_pending (m.futures g))) [
  | inl p ↦ rw p (h, n, l, subst Unanswered (ground (arith, o)) u)
  | inr p ↦ rw p (h, n, l, u)
]

drop_head-Lost :
    (f : ℕ) (t : Tier) (item : QueueItem) (rest : List QueueItem) (m : Manager)
    → at m.queues t ≡ item ∷ rest
    → Lost f m
    → Lost f (drop_head t item rest m).1
drop_head-Lost f t item rest m q v =
    let (head, others) = subst (All (IsOther f)) q (at-Lost f t m v) in
    set_exception-Lost f item.future queue_flushed (record m { queues = put m.queues t rest }) head
      (put-Lost f t rest m others v)

futures-enqueue :
    (item : QueueItem) (m : Manager) (f : ℕ) → (enqueue item m).1.futures f ≡ m.futures f
unfolding enqueue admit check_watermark
futures-enqueue item m f = ground arith

abbrev IsOthers : ℕ → PerTier (List QueueItem) → Type 0
IsOthers f q = All (IsOther f) q.at_high × All (IsOther f) q.at_normal × All (IsOther f) q.at_low

admit-IsOthers :
    (f : ℕ) (item : QueueItem) (m : Manager)
    → item.future ≢ f
    → Lost f m
    → IsOthers f (admit item m).queues
unfolding admit
admit-IsOthers f item m o v =
    let (h, n, l, u) =
      put-Lost f item.tier (at m.queues item.tier ++ filed item m ∷ []) m
        (All-append (IsOther f) (at m.queues item.tier) (filed item m ∷ [])
          (at-Lost f item.tier m v) (o, tt))
        v in
    (h, n, l)

enqueue-Lost :
    (f : ℕ) (item : QueueItem) (m : Manager)
    → item.future ≢ f
    → Lost f m
    → Lost f (enqueue item m).1
enqueue-Lost f item m o v =
    let others : IsOthers f (enqueue item m).1.queues = elim (enqueue-queues item m) [
      | inl same ↦ subst (IsOthers f) (sym same) (v.0, v.1, v.2)
      | inr filed_in ↦ subst (IsOthers f) (sym filed_in) (admit-IsOthers f item m o v)
    ] in
    (others.0, others.1, others.2, subst Unanswered (sym (futures-enqueue item m f)) v.3)

set_paused-Lost :
    (f : ℕ) (b : Bool) (t : Option Tier) (m : Manager) → Lost f m → Lost f (set_paused b t m)
set_paused-Lost f b none m v = v
set_paused-Lost f b (some t) m v = v

cancel-Lost : (f g : ℕ) (l : Loop) → Lost f l.manager → Lost f (cancel g l).manager
unfolding cancel
cancel-Lost f g l (h, n, w, u) = elim (Bool-cases (is_pending (l.futures g))) [
  | inl p ↦ rw (p, cancel) (h, n, w, ground arith)
  | inr p ↦ rw (p, cancel) (h, n, w, u)
]

-- No worker is left, and the request is lost.
record Abandoned (f : ℕ) (l : Loop) : Type 0 where
  none_idle : l.idle ≡ 0
  none_running : l.running ≡ []
  made : f < l.next_future
  lost : Lost f l.manager

complete_none : (now i : ℕ) (d : Dispatched) (l : Loop) → l.running ≡ [] → complete now i d l ≡ l
unfolding complete
complete_none now i d l e = ground (arith, e)

step-Abandoned : (f : ℕ) (a : Action) (l : Loop) → Abandoned f l → Abandoned f (step a l)
unfolding step submit pause resume new_item cancel
step-Abandoned f (submits tier now id n) l v = record {
  none_idle = v.none_idle;
  none_running = v.none_running;
  made = omega (arith, v.made);
  lost = enqueue-Lost f (new_item l tier now id n) l.manager (λ e. omega (arith, v.made, e)) v.lost;
}
step-Abandoned f (takes now) l v =
    let stuck : step (takes now) l ≡ l = ground (arith, v.none_idle) in
    subst (Abandoned f) (sym stuck) v
step-Abandoned f (finishes now i d) l v =
    subst (Abandoned f) (sym (complete_none now i d l v.none_running)) v
step-Abandoned f (cancels g) l v = record {
  none_idle = ground (arith, v.none_idle);
  none_running = ground (arith, v.none_running);
  made = ground (arith, v.made);
  lost = cancel-Lost f g l v.lost;
}
step-Abandoned f (pauses t) l v = record {
  none_idle = v.none_idle;
  none_running = v.none_running;
  made = v.made;
  lost = set_paused-Lost f true t l.manager v.lost;
}
step-Abandoned f (resumes t) l v = record {
  none_idle = v.none_idle;
  none_running = v.none_running;
  made = v.made;
  lost = set_paused-Lost f false t l.manager v.lost;
}
step-Abandoned f (flushes t) l v = record {
  none_idle = v.none_idle;
  none_running = v.none_running;
  made = v.made;
  lost =
      flush-keeps (Lost f) (drop_head-Lost f) (λ u m q w. put-Lost f u [] m tt w) t l.manager
        v.lost;
}

run-Abandoned :
    (f : ℕ) (actions : List Action) (l : Loop) → Abandoned f l → Abandoned f (run actions l)
unfolding run
run-Abandoned f [] l v = v
run-Abandoned f (a ∷ rest) l v = run-Abandoned f rest (step a l) (step-Abandoned f a l v)

empty-IsOther : (f : ℕ) (xs : List QueueItem) → is_empty xs ≡ true → All (IsOther f) xs
empty-IsOther f [] e = tt
empty-IsOther f (x ∷ xs) e = cc

pending_eq : (s : FutureState) → is_pending s ≡ true → s ≡ pending
pending_eq pending e = refl
pending_eq cancelled e = cc
pending_eq (result a) e = cc
pending_eq (exception x) e = cc

stopped-Abandoned :
    (l : Loop) (f : ℕ)
    → drained l.manager ≡ true
    → f < l.next_future
    → is_pending (l.futures f) ≡ true
    → Abandoned f (stop_workers l)
unfolding stop_workers
stopped-Abandoned l f e made p = record {
  none_idle = refl;
  none_running = refl;
  made = made;
  lost = (
    empty-IsOther f l.queues.at_high (ground arith),
    empty-IsOther f l.queues.at_normal (ground arith),
    empty-IsOther f l.queues.at_low (ground arith),
    inl (pending_eq (l.futures f) p),
  );
}

-- The bug: `drain` waits for the queues alone. Where nothing waits, the shutdown ends the wait at once,
-- with its timeout still to come, although requests are being dispatched, and cancels the workers. A
-- request whose future has been made and has no outcome by then never gets one: whatever happens later,
-- its future is pending, or cancelled by its caller.
pub shut_down-Abandoned :
    (l : Loop) (f : ℕ) (later : List Action)
    → drained l.manager ≡ true
    → f < l.next_future
    → is_pending (l.futures f) ≡ true
    → (after : Loop) × (shut_down false l ≡ some after) × Unanswered ((run later after).futures f)
unfolding shut_down
shut_down-Abandoned l f later e made p = (
  stop_workers l,
  ground (arith, e),
  (run-Abandoned f later (stop_workers l) (stopped-Abandoned l f e made p)).lost.3,
)
