-- ===== src/System/Caps.antt =====
-- The limits on what goes upstream, over runs of the whole, and the dispatches that wait for them.
use ollama_queue_proxy.Prelude.{
  ℕ, zero, suc, ◌+◌, ◌≤◌, ◌<◌, ◌≡◌, ◌⊎◌, inl, inr, sym, ap, ◌∙◌, subst, String, true, Option, none,
  some, List, [], ◌∷◌, All, Dict, lookup, length, get_elem?, ltb, str_eq, eq_iff, refl, eq_refl,
  arith, Bool-cases, Option-cases,
}
use ollama_queue_proxy.Config.{QueueConfig, ApiKeyConfig}
use ollama_queue_proxy.Concurrency.{ClientState}
use ollama_queue_proxy.Queue.Steps.{start}
use ollama_queue_proxy.Queue.Steps as Steps
use ollama_queue_proxy.Queue.Slots.{run_slots}
use ollama_queue_proxy.System.{
  Phase, waits_for_cap, upstream_of, System, Event, takes, goes_on, boot, concurrency_manager,
  can_go_on, go_on, next_upstream, step, run,
}
use ollama_queue_proxy.System.Tally.{ups, parks, cap_of, state_cap, IsTallied, IsPlaced}
use ollama_queue_proxy.System.Wakes.{ups-next_upstream}
use ollama_queue_proxy.System.Runs.{Inv, run-Acts, run-Inv, boot-Inv}

-- What is known of a client, by the cap that the manager has for it at the start; a cap of 0 is none.
abbrev pub IsCapped : String → System → Option ℕ → Type 0
IsCapped c s none = (lookup c s.clients ≡ none) × (parks c s.phases ≡ 0)
IsCapped c s (some cap) =
    (client : ClientState) × (lookup c s.clients ≡ some client)
    × (client.inflight ≡ ups c s.phases)
    × (client.cap_waiting ≡ parks c s.phases)
    × (0 < cap → ups c s.phases ≤ cap)

module _ (config : QueueConfig) (max_concurrent : ℕ) (keys : List ApiKeyConfig) where
  abbrev reached : List Event → System
  reached events = run events (boot config max_concurrent keys)

  reached-Inv : (events : List Event) → Inv (concurrency_manager keys) (reached events)
  reached-Inv events =
      run-Inv (concurrency_manager keys) events (boot config max_concurrent keys)
        (boot-Inv config max_concurrent keys)

  reached_loop :
      (events : List Event)
      → (actions : List Steps.Action) × ((reached events).loop
          ≡ Steps.run actions (start config max_concurrent))
  unfolding boot
  reached_loop events = run-Acts events (boot config max_concurrent keys)

  abbrev HasSlots : Steps.Loop → Type 0
  HasSlots l =
      (length l.running ≤ l.active)
      × (l.active ≤ max_concurrent)
      × (l.active + l.idle ≡ max_concurrent)
      × (0 < l.idle → 0 < l.semaphore)

  -- No more dispatches than workers, and none left idle beside them.
  reached_slots :
      (events : List Event)
      → let s = reached events in
        (length s.phases ≤ s.loop.active) × (s.loop.active + s.loop.idle ≡ max_concurrent)
  reached_slots events =
      let (actions, e) = reached_loop events in
      let (running, _, whole, _) =
        subst HasSlots (sym e) (run_slots config max_concurrent actions) in
      (omega (arith, (reached-Inv events).parallel, running), whole)

  cap_eq : (a b : ℕ) → some a ≡ some b → a ≡ b
  cap_eq a b e = cc

  within :
      (s : ClientState) (u w cap : ℕ)
      → IsTallied s u w
      → s.cap ≡ cap
      → (s.inflight ≡ u) × (s.cap_waiting ≡ w) × (0 < cap → u ≤ cap)
  unfolding IsTallied
  within s u w cap (i, a, b, inl (c, n, z)) e = (i, b, λ h. absurd (omega (arith, h, e, c)))
  within s u w cap (i, a, b, inr (c, n, z)) e = (i, b, λ h. omega (arith, z, e))

  -- Where no state counts for a client, none of its dispatches waits.
  parks-unknown :
      (c : String) (clients : Dict ClientState) (phases : List Phase)
      → lookup c clients ≡ none
      → All (IsPlaced clients) phases
      → parks c phases ≡ 0
  parks-unknown c clients [] e a = refl
  parks-unknown c clients (upstream_of o ∷ ps) e a = omega (arith, parks-unknown c clients ps e a.1)
  parks-unknown c clients (waits_for_cap none ∷ ps) e a = absurd (a.0)
  parks-unknown c clients (waits_for_cap (some d) ∷ ps) e a = elim (Bool-cases (str_eq d c)) [
    | inl h ↦ absurd (a.0 (ap (λ n. lookup n clients) ((eq_iff d c).0 h) ∙ e))
    | inr h ↦ ground (arith, h, parks-unknown c clients ps e a.1)
  ]

  reached-IsCapped :
      (events : List Event) (c : String) (o : Option ℕ)
      → cap_of c (concurrency_manager keys) ≡ o
      → IsCapped c (reached events) o
  reached-IsCapped events c none h =
      let t = (reached-Inv events).tally in
      elim (Option-cases (lookup c (reached events).clients)) [
        | inl e ↦ (e, parks-unknown c (reached events).clients (reached events).phases e t.placed)
        | inr (s, e) ↦ absurd (cc (sym (ap state_cap e) ∙ t.caps c ∙ h))
      ]
  reached-IsCapped events c (some cap) h =
      let t = (reached-Inv events).tally in
      elim (Option-cases (lookup c (reached events).clients)) [
        | inl e ↦ absurd (cc (sym (ap state_cap e) ∙ t.caps c ∙ h))
        | inr (s, e) ↦
            let (flying, waiting, bound) =
              within s (ups c (reached events).phases) (parks c (reached events).phases) cap
                (t.tallied c s e) (cap_eq s.cap cap (sym (ap state_cap e) ∙ t.caps c ∙ h)) in
            (s, e, flying, waiting, bound)
      ]

  -- Over every run of the proxy, with requests, workers, clients that wait for their caps, ends of
  -- dispatches, requests for metadata and controls in any order: of the requests that go through the
  -- queue, never more than `max_concurrent` are taken and not ended. A client that
  -- is configured with a cap never has more of them upstream than that, and what `/metrics` shows for
  -- a configured client is how many of them it has upstream and how many wait for its cap; without
  -- any cap in the configuration, and for every other client, nothing is counted and none waits.
  -- Requests for metadata are outside of these limits.
  pub run_caps :
      (events : List Event) (c : String)
      → let s = run events (boot config max_concurrent keys) in
        (length s.phases ≤ max_concurrent)
        × (length s.phases ≡ length s.loop.running)
        × IsCapped c s (cap_of c (concurrency_manager keys))
  run_caps events c =
      let (few, whole) = reached_slots events in
      (
        omega (arith, few, whole),
        (reached-Inv events).parallel,
        reached-IsCapped events c (cap_of c (concurrency_manager keys)) refl,
      )

  -- A dispatch that waits.
  waiter-IsPlaced :
      (clients : Dict ClientState) (phases : List Phase) (i : ℕ) (o : Option String)
      → All (IsPlaced clients) phases
      → get_elem? phases i ≡ some (waits_for_cap o)
      → (c : String) × (s : ClientState) × (o ≡ some c)
        × (lookup c clients ≡ some s)
        × (0 < parks c phases)
  waiter-IsPlaced clients [] i o a e = absurd (cc)
  waiter-IsPlaced clients (upstream_of u ∷ ps) zero o a e = absurd (cc)
  waiter-IsPlaced clients (waits_for_cap none ∷ ps) zero o a e = absurd (a.0)
  waiter-IsPlaced clients (waits_for_cap (some c) ∷ ps) zero o a e =
      elim (Option-cases (lookup c clients)) [
        | inl h ↦ absurd (a.0 h)
        | inr (s, h) ↦ (c, s, cc, h, ground (arith, eq_refl c))
      ]
  waiter-IsPlaced clients (p ∷ ps) (suc i) o a e =
      let (c, s, same, here, waiting) = waiter-IsPlaced clients ps i o a.1 e in
      (c, s, same, here, omega (arith, waiting))

  slot_or_full :
      (s : ClientState) (u w : ℕ)
      → IsTallied s u w
      → 0 < w
      → (can_go_on s ≡ true) ⊎ ((0 < s.cap) × (u ≡ s.cap))
  unfolding IsTallied
  slot_or_full s u w (i, a, b, inl (c, n, z)) h = absurd (omega (arith, h, z))
  slot_or_full s u w (i, a, b, inr (c, n, z)) h = elim (Bool-cases (ltb u s.cap)) [
    | inl e ↦ inl (ground arith)
    | inr e ↦ inr (c, ground arith)
  ]

  phases-goes_on :
      (c : String) (client : ClientState) (s : System)
      → lookup c s.clients ≡ some client
      → can_go_on client ≡ true
      → (step (goes_on c) s).phases ≡ next_upstream c s.phases
  unfolding step go_on
  phases-goes_on c client s e can = ground arith

  -- A dispatch that waits for the cap of its client never waits for nothing: it is one of a client that
  -- is known, and the first waiter of that client goes upstream at its next turn, or as many
  -- dispatches as the cap allows are upstream for it, at least one, whose end gives a slot back.
  pub run_unblocks :
      (events : List Event) (i : ℕ) (o : Option String)
      → let s = run events (boot config max_concurrent keys) in
        get_elem? s.phases i ≡ some (waits_for_cap o)
        → (c : String) × (cap : ℕ) × (o ≡ some c)
          × (cap_of c (concurrency_manager keys) ≡ some cap)
          × ((ups c (step (goes_on c) s).phases ≡ ups c s.phases + 1)
              ⊎ ((0 < cap) × (ups c s.phases ≡ cap)))
  run_unblocks events i o e =
      let s = reached events in
      let t = (reached-Inv events).tally in
      let (c, client, same, here, waiting) = waiter-IsPlaced s.clients s.phases i o t.placed e in
      (
        c,
        client.cap,
        same,
        sym (t.caps c) ∙ ap state_cap here,
        elim (slot_or_full client (ups c s.phases) (parks c s.phases) (t.tallied c client here)
            waiting) [
              | inl can ↦ inl (
                  ap (ups c) (phases-goes_on c client s here can)
                  ∙ (ups-next_upstream c s.phases waiting).0)
              | inr full ↦ inr full
            ],
      )

  -- A worker that waits for the cap of a client is taken from all of them: where as many dispatches are
  -- started and not ended as there are workers, although some of them only wait for a cap, no worker
  -- takes anything, whichever request of whichever client and tier waits.
  pub parked_blocks :
      (events : List Event) (now : ℕ)
      → let s = run events (boot config max_concurrent keys) in
        length s.phases ≡ max_concurrent → step (takes now) s ≡ s
  unfolding step
  parked_blocks events now full =
      let (few, whole) = reached_slots events in
      let none_idle : (reached events).loop.idle ≡ 0 = omega (arith, few, whole, full) in
      ground (arith, none_idle)
