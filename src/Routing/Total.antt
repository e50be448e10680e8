-- ===== src/Routing/Total.antt =====
-- When a pick comes to a host, and what it counts.
use ollama_queue_proxy.Prelude.{
  ℕ, zero, suc, ◌+◌, ◌≤◌, ◌<◌, ◌≡◌, refl, subst, String, false, Option, none, some, List, [], ◌∷◌,
  All, keep, length, arith, Bool-cases, inl, inr, is_empty, str_eq,
}
use ollama_queue_proxy.Routing.{
  Host, RoutingTable, Strategy, model_aware, round_robin, Decisions, hosts, candidates, or_all,
  with_model, repeat, weighted, pick_round_robin, choose, pick_model_aware, pick, count_model_match,
  count_fallback, count_round_robin,
}
use ollama_queue_proxy.Routing.Candidates.{All-keep, picks_some}

abbrev pub Weighs : Host → Type 0
Weighs h = 0 < h.weight

length-repeat : (n : ℕ) (h : Host) (hs : List Host) → n ≤ length (repeat n h hs)
length-repeat zero h hs = omega arith
length-repeat (suc n) h hs = omega (arith, length-repeat n h hs)

length-weighted : (cs : List Host) → 0 < length cs → All Weighs cs → 0 < length (weighted cs)
unfolding weighted
length-weighted [] l a = elim l [ ]
length-weighted (h ∷ hs) l a = omega (arith, a.0, length-repeat h.weight h (weighted hs))

abbrev pub total : Decisions → ℕ
total d = d.model_match + d.round_robin_count + d.fallback

-- A host comes of the choice, which is counted once; the hosts stay as they are.
abbrev pub Picks : RoutingTable → Option Host × RoutingTable → Type 0
Picks t (picked, after) =
    ((h : Host) × (picked ≡ some h))
    × (after.states ≡ t.states)
    × (after.strategy ≡ t.strategy)
    × (after.rr_counter ≡ t.rr_counter + 1)
    × (total after.routing_decisions ≡ total t.routing_decisions + 1)

counter-pick :
    (ws cs : List Host) (counter : ℕ)
    → weighted cs ≡ ws
    → 0 < length ws
    → (pick_round_robin cs counter).1 ≡ counter + 1
unfolding pick_round_robin
counter-pick [] cs c e l = elim l [ ]
counter-pick (w ∷ ws) cs c e l = ground arith

choose-Picks :
    (cs : List Host) (count : Decisions → Decisions) (t : RoutingTable)
    → total (count t.routing_decisions) ≡ total t.routing_decisions + 1
    → 0 < length cs
    → All Weighs cs
    → Picks t (choose cs count t)
unfolding choose
choose-Picks cs count t one l a =
    let positive = length-weighted cs l a in
    let (h, found) = picks_some (weighted cs) cs t.rr_counter refl positive in
    let next = counter-pick (weighted cs) cs t.rr_counter refl positive in
    (
      (h, found),
      ground (arith, found),
      ground (arith, found),
      ground (arith, found, next),
      ground (arith, found),
    )

candidates-Weighs :
    (t : RoutingTable)
    → 0 < length (hosts t)
    → All Weighs (hosts t)
    → (0 < length (candidates t)) × All Weighs (candidates t)
unfolding candidates
candidates-Weighs t l a = go (keep (λ h. h.reachable) (hosts t)) (All-keep Weighs _ (hosts t) a)
  where
    go :
        (up : List Host)
        → All Weighs up
        → (0 < length (or_all up (hosts t))) × All Weighs (or_all up (hosts t))
    go [] b = (l, a)
    go (h ∷ up) b = (omega arith, b)

nonempty : (hs : List Host) → is_empty hs ≡ false → 0 < length hs
nonempty [] e = cc
nonempty (h ∷ hs) e = omega arith

pick_named-Picks :
    (s : Strategy) (name : String) (t : RoutingTable)
    → t.strategy ≡ s
    → 0 < length (candidates t)
    → All Weighs (candidates t)
    → Picks t (pick (some name) t)
unfolding pick pick_model_aware
pick_named-Picks round_robin name t p l a =
    subst (Picks t) (ground arith)
      (choose-Picks (candidates t) count_round_robin t (omega arith) l a)
pick_named-Picks model_aware name t p l a = elim (Bool-cases (str_eq name "")) [
  | inl blank ↦
      subst (Picks t) (ground arith)
        (choose-Picks (candidates t) count_round_robin t (omega arith) l a)
  | inr named ↦ elim (Bool-cases (is_empty (with_model name (candidates t)))) [
    | inl no_match ↦
        subst (Picks t) (ground arith)
          (choose-Picks (candidates t) count_fallback t (omega arith) l a)
    | inr some_match ↦ subst (Picks t) (ground arith) (
        choose-Picks (with_model name (candidates t)) count_model_match t (omega arith)
          (nonempty _ some_match) (All-keep Weighs _ (candidates t) a))
  ]
]

-- Where hosts are configured, with positive weights as the configuration demands, every pick comes
-- to a host, whatever is reachable; it advances the counter by one, is counted as exactly one
-- routing decision, and leaves the hosts as they are.
pub pick_total :
    (model : Option String) (t : RoutingTable)
    → 0 < length (hosts t)
    → All Weighs (hosts t)
    → Picks t (pick model t)
unfolding pick
pick_total none t l a =
    let (some_up, weigh) = candidates-Weighs t l a in
    choose-Picks (candidates t) count_round_robin t (omega arith) some_up weigh
pick_total (some name) t l a =
    let (some_up, weigh) = candidates-Weighs t l a in
    pick_named-Picks t.strategy name t refl some_up weigh
