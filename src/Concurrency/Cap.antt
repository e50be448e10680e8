-- ===== src/Concurrency/Cap.antt =====
-- The cap on concurrent requests, and what the fairness bypass does to it.
use ollama_queue_proxy.Prelude.{
  ℕ, ◌+◌, ◌-◌, ◌≤◌, ◌<◌, ◌≡◌, ◌↔◌, refl, ◌∙◌, String, true, some, List, [], ◌∷◌, All, arith,
}
use ollama_queue_proxy.Concurrency.{
  ClientState, client_state, fairness_max_reentries, is_at_cap, Event, arrives, goes_on, ends, step,
  run,
}

-- Every permit is free or held by a request in flight.
record Balanced (s : ClientState) : Type 0 where
  pub fits : s.inflight ≤ s.cap
  pub permits : s.semaphore ≡ some (s.cap - s.inflight)
  pub capped : 0 < s.cap
  pub waiting : s.cap_waiting ≡ s.waiters

-- The event does not use the bypass.
abbrev pub NoBypass : Event → Type 0
NoBypass (arrives reentries) = reentries < fairness_max_reentries
NoBypass _ = Unit

step-Balanced : (e : Event) (s : ClientState) → NoBypass e → Balanced s → Balanced (step e s)
unfolding step
step-Balanced (arrives r) s n b = ground arith
step-Balanced goes_on s n b = ground arith
step-Balanced ends s n b = ground arith

cap-step : (e : Event) (s : ClientState) → (step e s).cap ≡ s.cap
unfolding step
cap-step (arrives r) s = ground arith
cap-step goes_on s = ground arith
cap-step ends s = ground arith

run-Balanced :
    (events : List Event) (s : ClientState)
    → All NoBypass events
    → Balanced s
    → Balanced (run events s) × ((run events s).cap ≡ s.cap)
unfolding run
run-Balanced [] s n b = (b, refl)
run-Balanced (e ∷ rest) s n b =
    let (balanced, same) = run-Balanced rest (step e s) n.1 (step-Balanced e s n.0 b) in
    (balanced, same ∙ cap-step e s)

client_state-Balanced :
    (client_id : String) (cap : ℕ) → 0 < cap → Balanced (client_state client_id cap)
unfolding client_state
client_state-Balanced client_id cap h = ground arith

cap-client_state : (client_id : String) (cap : ℕ) → (client_state client_id cap).cap ≡ cap
unfolding client_state
cap-client_state client_id cap = refl

at_cap :
    (s : ClientState) {cap : ℕ}
    → Balanced s
    → s.cap ≡ cap
    → (s.inflight ≤ cap)
      × ((is_at_cap s ≡ true) ↔ (s.semaphore ≡ some 0))
      × (s.cap_waiting ≡ s.waiters)
unfolding is_at_cap
at_cap s b e = (ground arith, (λ h. ground arith, λ h. ground arith), b.waiting)

-- A client with a cap never has more requests in flight than the cap, as long as none of its
-- requests is let through by the bypass; and `is_at_cap` holds exactly while the semaphore has no
-- permit left.
pub run_cap :
    (client_id : String) (cap : ℕ) (events : List Event)
    → 0 < cap
    → All NoBypass events
    → let s = run events (client_state client_id cap) in
      (s.inflight ≤ cap)
      × ((is_at_cap s ≡ true) ↔ (s.semaphore ≡ some 0))
      × (s.cap_waiting ≡ s.waiters)
run_cap client_id cap events h n =
    let (b, same) =
      run-Balanced events (client_state client_id cap) n (client_state-Balanced client_id cap h) in
    at_cap (run events (client_state client_id cap)) b (same ∙ cap-client_state client_id cap)

-- The bug: the bypass takes no permit, and the release that ends the request gives one back. Each
-- round of the two leaves the semaphore with one permit more than before, so the client's cap grows
-- for good.
pub bypass_leaks :
    (s : ClientState) (value reentries : ℕ)
    → 0 < s.cap
    → fairness_max_reentries ≤ reentries
    → s.semaphore ≡ some value
    → let t = run (arrives reentries ∷ ends ∷ []) s in
      (t.semaphore ≡ some (value + 1)) × (t.inflight ≡ s.inflight) × (t.cap ≡ s.cap)
unfolding run step
bypass_leaks s value r c h e = ground arith
