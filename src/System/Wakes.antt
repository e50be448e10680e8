-- ===== src/System/Wakes.antt =====
-- What the turn of a waiter does to the states of the clients keeps the tally.
use ollama_queue_proxy.Prelude.{
  ◌+◌, ◌-◌, ◌<◌, ◌≡◌, inl, inr, refl, sym, subst, String, true, false, none, some, List, [], ◌∷◌,
  Dict, insert, lookup, str_eq, eq_iff, All, arith, Bool-cases,
}
use ollama_queue_proxy.Concurrency.{ClientState, wake_up}
use ollama_queue_proxy.System.{Phase, waits_for_cap, upstream_of, next_upstream, can_go_on}
use ollama_queue_proxy.System.Tally.{
  ups, parks, IsTallied, wake_up-IsTallied, IsPlaced, Tally, Tally-insert,
}

pub ups-next_upstream :
    (c : String) (phases : List Phase)
    → 0 < parks c phases
    → (ups c (next_upstream c phases) ≡ ups c phases + 1)
      × (parks c (next_upstream c phases) ≡ parks c phases - 1)
unfolding next_upstream
ups-next_upstream c [] h = absurd (omega arith)
ups-next_upstream c (waits_for_cap none ∷ ps) h =
    let (u, w) = ups-next_upstream c ps (omega arith) in (omega (arith, u), omega (arith, w))
ups-next_upstream c (waits_for_cap (some d) ∷ ps) h = elim (Bool-cases (str_eq d c)) [
  | inl e ↦ (ground arith, ground arith)
  | inr e ↦
      let (u, w) = ups-next_upstream c ps (ground arith) in (ground (arith, u), ground (arith, w))
]
ups-next_upstream c (upstream_of o ∷ ps) h =
    let (u, w) = ups-next_upstream c ps (omega arith) in (omega (arith, u), omega (arith, w))

others-next_upstream :
    (c d : String) (phases : List Phase)
    → str_eq c d ≡ false
    → (ups d (next_upstream c phases) ≡ ups d phases)
      × (parks d (next_upstream c phases) ≡ parks d phases)
unfolding next_upstream
others-next_upstream c d [] h = (refl, refl)
others-next_upstream c d (waits_for_cap none ∷ ps) h =
    let (u, w) = others-next_upstream c d ps h in (omega (arith, u), omega (arith, w))
others-next_upstream c d (waits_for_cap (some x) ∷ ps) h = elim (Bool-cases (str_eq x c)) [
  | inl e ↦ let same : x ≡ c = (eq_iff x c).0 e in (ground arith, ground arith)
  | inr e ↦ let (u, w) = others-next_upstream c d ps h in (ground (arith, u), ground (arith, w))
]
others-next_upstream c d (upstream_of o ∷ ps) h =
    let (u, w) = others-next_upstream c d ps h in (omega (arith, u), omega (arith, w))

next_upstream-IsPlaced :
    (clients : Dict ClientState) (c : String) (phases : List Phase)
    → All (IsPlaced clients) phases
    → All (IsPlaced clients) (next_upstream c phases)
unfolding next_upstream
next_upstream-IsPlaced clients c [] a = tt
next_upstream-IsPlaced clients c (waits_for_cap none ∷ ps) a = absurd (a.0)
next_upstream-IsPlaced clients c (waits_for_cap (some d) ∷ ps) a = elim (Bool-cases (str_eq d c)) [
  | inl e ↦ rw e (tt, a.1)
  | inr e ↦ rw e (a.0, next_upstream-IsPlaced clients c ps a.1)
]
next_upstream-IsPlaced clients c (upstream_of o ∷ ps) a =
    (tt, next_upstream-IsPlaced clients c ps a.1)

-- The first waiter of a client goes on.
pub wake_up-Tally :
    (at_first clients : Dict ClientState) (phases : List Phase) (c : String) (s : ClientState)
    → Tally at_first clients phases
    → lookup c clients ≡ some s
    → can_go_on s ≡ true
    → Tally at_first (insert c (wake_up s) clients) (next_upstream c phases) × (0 < parks c phases)
wake_up-Tally at_first clients phases c s t here can =
    let (good, same_cap, waiting) =
      wake_up-IsTallied s (ups c phases) (parks c phases) can (t.tallied c s here) in
    let (u, w) = ups-next_upstream c phases waiting in
    (
      Tally-insert at_first clients phases (next_upstream c phases) c s (wake_up s) t here same_cap
          (subst (λ n. IsTallied (wake_up s) n (parks c (next_upstream c phases))) (sym u)
            (subst (λ n. IsTallied (wake_up s) (ups c phases + 1) n) (sym w) good))
          (λ d e. others-next_upstream c d phases e)
          (next_upstream-IsPlaced clients c phases t.placed),
      waiting,
    )
