-- ===== src/System/Runs.antt =====
-- A run of the whole is a run of the queue and its workers, and keeps the tally of the clients.
use ollama_queue_proxy.Prelude.{
  ℕ, zero, suc, ◌-◌, ◌≡◌, ◌⊎◌, inl, inr, refl, ap, ◌∙◌, subst, String, none, some, List, [], ◌∷◌,
  Dict, lookup, lookup-insert, insert, str_eq, length, length-append, get_elem?, any, ltb, arith,
  Bool-cases, Option-cases,
}
use ollama_queue_proxy.Config.{QueueConfig, ApiKeyConfig}
use ollama_queue_proxy.Concurrency.{ClientState, client_state, client_states}
use ollama_queue_proxy.Queue.Worker.{take, Round, waits, dispatches, dies, Dispatched}
use ollama_queue_proxy.Queue.Steps.{
  Loop, Action, start, remove_at, can_take, take_turn, complete, settle_worker,
}
use ollama_queue_proxy.Queue.Steps as Steps
use ollama_queue_proxy.System.{
  Phase, waits_for_cap, upstream_of, phase_of, System, Event, submits, takes, goes_on, finishes,
  cancels, pauses, resumes, flushes, forwards, answers, boot, concurrency_manager, acquire_for,
  dispatch, can_go_on, go_on, end_dispatch, step, run, next_upstream,
}
use ollama_queue_proxy.System.Tally.{Tally, IsTallied}
use ollama_queue_proxy.System.Moves.{acquire_for-Tally, release_for-Tally}
use ollama_queue_proxy.System.Wakes.{wake_up-Tally}

-- One event does one action of the loop, or none.
abbrev Acts : System → System → Type 0
Acts s t = (t.loop ≡ s.loop) ⊎ ((a : Action) × (t.loop ≡ Steps.step a s.loop))

dispatch-loop : (r : Round) (s : System) → (dispatch r s).loop ≡ s.loop
unfolding dispatch
dispatch-loop waits s = refl
dispatch-loop dies s = refl
dispatch-loop (dispatches item) s = refl

go_on-loop : (c : String) (s : System) → (go_on c s).loop ≡ s.loop
unfolding go_on
go_on-loop c s = elim (Option-cases (lookup c s.clients)) [
  | inl e ↦ ground arith
  | inr (state, e) ↦ ground arith
]

finishes-Acts : (now i : ℕ) (d : Dispatched) (s : System) → Acts s (end_dispatch now i d s)
unfolding end_dispatch Steps.step
finishes-Acts now i d s = elim (Option-cases (get_elem? s.phases i)) [
  | inl e ↦ inl (ground arith)
  | inr (waits_for_cap o, e) ↦ inl (ground arith)
  | inr (upstream_of o, e) ↦ inr (Steps.finishes now i d, ground arith)
]

step-Acts : (e : Event) (s : System) → Acts s (step e s)
unfolding step Steps.step
step-Acts (submits client tier now id n) s = inr (Steps.submits tier now id n, refl)
step-Acts (takes now) s = elim (Bool-cases (can_take s.loop)) [
  | inl e ↦ inr (
    Steps.takes now,
    ground (
      arith,
      dispatch-loop (take now s.loop.manager).0 (record s { loop = take_turn now s.loop }),
    ),
  )
  | inr e ↦ inl (ground arith)
]
step-Acts (goes_on c) s = inl (go_on-loop c s)
step-Acts (finishes now i d) s = finishes-Acts now i d s
step-Acts (cancels f) s = inr (Steps.cancels f, refl)
step-Acts (pauses t) s = inr (Steps.pauses t, refl)
step-Acts (resumes t) s = inr (Steps.resumes t, refl)
step-Acts (flushes t) s = inr (Steps.flushes t, refl)
step-Acts (forwards client) s = inl refl
step-Acts (answers i) s = inl refl

-- What a run of the whole does to the queue and its workers is a run of them alone: what holds of every
-- such run holds of the whole.
pub run-Acts :
    (events : List Event) (s : System)
    → (actions : List Action) × ((run events s).loop ≡ Steps.run actions s.loop)
unfolding run Steps.run
run-Acts [] s = ([], refl)
run-Acts (e ∷ rest) s =
    let (actions, same) = run-Acts rest (step e s) in
    elim (step-Acts e s) [
      | inl h ↦ (actions, same ∙ ap (Steps.run actions) h)
      | inr (a, h) ↦ (a ∷ actions, same ∙ ap (Steps.run actions) h)
    ]

-- Each running item has its phase, and the clients are tallied.
pub record Inv (at_first : Dict ClientState) (s : System) : Type 0 where
  pub parallel : length s.phases ≡ length s.loop.running
  pub tally : Tally at_first s.clients s.phases

get_elem?-parallel :
    {A B : Type 0} (xs : List A) (ys : List B) (i : ℕ) (x : A)
    → length xs ≡ length ys
    → get_elem? xs i ≡ some x
    → (y : B) × (get_elem? ys i ≡ some y)
get_elem?-parallel [] ys i x h e = absurd (cc)
get_elem?-parallel (a ∷ xs) [] i x h e = absurd (omega arith)
get_elem?-parallel (a ∷ xs) (b ∷ ys) zero x h e = (b, refl)
get_elem?-parallel (a ∷ xs) (b ∷ ys) (suc i) x h e = get_elem?-parallel xs ys i x (omega arith) e

length-remove_at :
    {A B : Type 0} (xs : List A) (ys : List B) (i : ℕ)
    → length xs ≡ length ys
    → length (remove_at i xs) ≡ length (remove_at i ys)
length-remove_at [] [] i h = refl
length-remove_at [] (b ∷ ys) i h = absurd (omega arith)
length-remove_at (a ∷ xs) [] i h = absurd (omega arith)
length-remove_at (a ∷ xs) (b ∷ ys) zero h = omega arith
length-remove_at (a ∷ xs) (b ∷ ys) (suc i) h = omega (arith, length-remove_at xs ys i (omega arith))

length-next_upstream :
    (c : String) (phases : List Phase) → length (next_upstream c phases) ≡ length phases
unfolding next_upstream
length-next_upstream c [] = refl
length-next_upstream c (waits_for_cap none ∷ ps) = omega (arith, length-next_upstream c ps)
length-next_upstream c (waits_for_cap (some d) ∷ ps) = ground (arith, length-next_upstream c ps)
length-next_upstream c (upstream_of o ∷ ps) = omega (arith, length-next_upstream c ps)

module _ (at_first : Dict ClientState) where
  settled-Inv :
      (r : Round) (l : Loop) (s : System)
      → length s.phases ≡ length l.running
      → Tally at_first s.clients s.phases
      → Inv at_first (dispatch r (record s { loop = settle_worker r l }))
  unfolding dispatch settle_worker
  settled-Inv waits l s p t = record { parallel = p; tally = t }
  settled-Inv dies l s p t = record { parallel = p; tally = t }
  settled-Inv (dispatches item) l s p t =
      let client = s.owner item.future in
      record {
        parallel = omega (
          arith,
          length-append s.phases (phase_of (acquire_for 0 client s.clients).0 client ∷ []),
          length-append l.running (item ∷ []),
        );
        tally = acquire_for-Tally at_first s.clients s.phases client t;
      }

  takes-Inv : (now : ℕ) (s : System) → Inv at_first s → Inv at_first (step (takes now) s)
  unfolding step take_turn
  takes-Inv now s v = elim (Bool-cases (can_take s.loop)) [
    | inl e ↦ rw e (
        settled-Inv (take now s.loop.manager).0
          (record s.loop { manager = (take now s.loop.manager).1; idle = s.loop.idle - 1 }) s
          v.parallel v.tally)
    | inr e ↦ rw e v
  ]

  go_on-Inv : (c : String) (s : System) → Inv at_first s → Inv at_first (go_on c s)
  unfolding go_on
  go_on-Inv c s v = elim (Option-cases (lookup c s.clients)) [
    | inl e ↦ rw (e, go_on) v
    | inr (state, e) ↦ elim (Bool-cases (can_go_on state)) [
      | inl can ↦
          rw (e, go_on, can)
            (record {
              parallel = length-next_upstream c s.phases ∙ v.parallel;
              tally = (wake_up-Tally at_first s.clients s.phases c state v.tally e can).0;
            })
      | inr stuck ↦ rw (e, go_on, stuck) v
    ]
  ]

  end_dispatch-Inv :
      (now i : ℕ) (d : Dispatched) (s : System)
      → Inv at_first s
      → Inv at_first (end_dispatch now i d s)
  unfolding end_dispatch complete
  end_dispatch-Inv now i d s v = elim (Option-cases (get_elem? s.phases i)) [
    | inl e ↦ rw (e, end_dispatch) v
    | inr (waits_for_cap o, e) ↦ rw (e, end_dispatch) v
    | inr (upstream_of o, e) ↦
        let (item, there) =
          get_elem?-parallel s.phases s.loop.running i (upstream_of o) v.parallel e in
        rw (e, end_dispatch)
          (record {
            parallel = rw (there, complete) (length-remove_at s.phases s.loop.running i v.parallel);
            tally = release_for-Tally at_first s.clients s.phases i o v.tally e;
          })
  ]

  step-Inv : (e : Event) (s : System) → Inv at_first s → Inv at_first (step e s)
  unfolding step Steps.step Steps.submit Steps.cancel
  step-Inv (submits client tier now id n) s v = record { parallel = v.parallel; tally = v.tally }
  step-Inv (takes now) s v = takes-Inv now s v
  step-Inv (goes_on c) s v = go_on-Inv c s v
  step-Inv (finishes now i d) s v = end_dispatch-Inv now i d s v
  step-Inv (cancels f) s v = record { parallel = ground (arith, v.parallel); tally = v.tally }
  step-Inv (pauses t) s v = record { parallel = v.parallel; tally = v.tally }
  step-Inv (resumes t) s v = record { parallel = v.parallel; tally = v.tally }
  step-Inv (flushes t) s v = record { parallel = v.parallel; tally = v.tally }
  step-Inv (forwards client) s v = record { parallel = v.parallel; tally = v.tally }
  step-Inv (answers i) s v = record { parallel = v.parallel; tally = v.tally }

  pub run-Inv : (events : List Event) (s : System) → Inv at_first s → Inv at_first (run events s)
  unfolding run
  run-Inv [] s v = v
  run-Inv (e ∷ rest) s v = run-Inv rest (step e s) (step-Inv e s v)

-- Nothing runs for the clients that are known.
abbrev IsFree : Dict ClientState → Type 0
IsFree clients = (c : String) (s : ClientState) → lookup c clients ≡ some s → IsTallied s 0 0

client_state-IsTallied : (client_id : String) (max : ℕ) → IsTallied (client_state client_id max) 0 0
unfolding client_state IsTallied
client_state-IsTallied client_id zero = (refl, refl, refl, inl (refl, refl, refl))
client_state-IsTallied client_id (suc n) =
    (refl, refl, refl, inr (ground arith, ground arith, ground arith))

client_states-IsFree :
    (keys : List ApiKeyConfig) (clients : Dict ClientState)
    → IsFree clients
    → IsFree (client_states clients keys)
unfolding client_states
client_states-IsFree [] clients f = f
client_states-IsFree (k ∷ keys) clients f =
    let fresh = client_state k.client_id k.max_concurrent in
    client_states-IsFree keys (insert k.client_id fresh clients) (λ c s e.
      elim (Bool-cases (str_eq k.client_id c)) [
        | inl h ↦
            let same : fresh ≡ s = ground (arith, lookup-insert k.client_id c fresh clients) in
            subst (λ x. IsTallied x 0 0) same (client_state-IsTallied k.client_id k.max_concurrent)
        | inr h ↦ f c s (ground (arith, lookup-insert k.client_id c fresh clients))
      ])

concurrency_manager-IsFree : (keys : List ApiKeyConfig) → IsFree (concurrency_manager keys)
unfolding concurrency_manager
concurrency_manager-IsFree keys = elim (Bool-cases (any (λ k. ltb 0 k.max_concurrent) keys)) [
  | inl e ↦ rw e (client_states-IsFree keys [] (λ c s h. cc))
  | inr e ↦ rw e (λ c s h. cc)
]

-- The invariant holds from the start on.
pub boot-Inv :
    (config : QueueConfig) (n : ℕ) (keys : List ApiKeyConfig)
    → Inv (concurrency_manager keys) (boot config n keys)
unfolding boot start
boot-Inv config n keys = record {
  parallel = refl;
  tally = record { caps = λ c. refl; tallied = concurrency_manager-IsFree keys; placed = tt };
}
