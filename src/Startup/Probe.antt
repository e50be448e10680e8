-- ===== src/Startup/Probe.antt =====
-- What the probe of the start lets through.
use ollama_queue_proxy.Prelude.{
  ℕ, ◌<◌, ◌≡◌, refl, sym, subst, String, Bool, true, false, Option, none, some, List, [], ◌∷◌, All,
  Dict, keep, is_empty, length, suc, get_elem?, arith, Bool-cases, Option-cases, inl, inr,
}
use ollama_queue_proxy.Routing.{
  poll_host, Host, RoutingTable, hosts, values, candidates, or_all, pick,
}
use ollama_queue_proxy.Routing.Total.{Weighs, pick_total}
use ollama_queue_proxy.Routing.Candidates.{weaken, pick-All}
use ollama_queue_proxy.Startup.{poll_all, startup_probe}

-- A host as it is after a poll that it answered, with what it answered.
abbrev pub HasAnswered : ℕ → (Host → Option (List String)) → List Host → Host → Type 0
HasAnswered now answers before h =
    (g : Host) × (models : List String) × ((i : ℕ) × (get_elem? before i ≡ some g))
    × (answers g ≡ some models)
    × (h ≡ poll_host now (some models) g)

-- After the probe: nothing answered where it ends the process; or the next pick comes to a host that has.
abbrev pub Probed :
    ℕ → (Host → Option (List String)) → Option String → RoutingTable → Option RoutingTable → Type 0
Probed now answers model t none = All (λ g. answers g ≡ none) (hosts t)
Probed now answers model t (some after) =
    (h : Host) × ((pick model after).0 ≡ some h) × HasAnswered now answers (hosts t) h

nothing_up :
    (now : ℕ) (answers : Host → Option (List String)) (d : Dict Host)
    → is_empty (keep (λ h. h.reachable) (values (poll_all now answers d))) ≡ true
    → All (λ g. answers g ≡ none) (values d)
unfolding poll_all poll_host
nothing_up now answers [] e = tt
nothing_up now answers ((name, h) ∷ d) e = elim (Option-cases (answers h)) [
  | inl silent ↦ (silent, nothing_up now answers d (rw (silent, poll_host) at e))
  | inr (models, heard) ↦ absurd (ground (arith, heard))
]

HasAnswered-cons :
    (now : ℕ) (answers : Host → Option (List String)) (x : Host) (before : List Host) (h : Host)
    → HasAnswered now answers before h
    → HasAnswered now answers (x ∷ before) h
HasAnswered-cons now answers x before h (g, models, (i, there), heard, same) =
    (g, models, (suc i, there), heard, same)

poll_all-HasAnswered :
    (now : ℕ) (answers : Host → Option (List String)) (d : Dict Host)
    → All
        (HasAnswered now answers (values d))
        (keep (λ h. h.reachable) (values (poll_all now answers d)))
unfolding poll_all poll_host
poll_all-HasAnswered now answers [] = tt
poll_all-HasAnswered now answers ((name, g) ∷ d) =
    let later =
      weaken _ (HasAnswered now answers (g ∷ values d))
        (keep (λ h. h.reachable) (values (poll_all now answers d)))
        (HasAnswered-cons now answers g (values d)) (poll_all-HasAnswered now answers d) in
    elim (Option-cases (answers g)) [
      | inl silent ↦ rw (silent, poll_host) later
      | inr (models, heard) ↦ rw (heard, poll_host) ((g, models, (0, refl), heard, refl), later)
    ]

poll_all-Weighs :
    (now : ℕ) (answers : Host → Option (List String)) (d : Dict Host)
    → All Weighs (values d)
    → All Weighs (values (poll_all now answers d))
unfolding poll_all poll_host
poll_all-Weighs now answers [] a = tt
poll_all-Weighs now answers ((name, h) ∷ d) a = elim (Option-cases (answers h)) [
  | inl silent ↦ (rw silent a.0, poll_all-Weighs now answers d a.1)
  | inr (models, heard) ↦ (rw heard a.0, poll_all-Weighs now answers d a.1)
]

or_all-some : (up all : List Host) → is_empty up ≡ false → or_all up all ≡ up
or_all-some [] all e = cc
or_all-some (h ∷ up) all e = refl

nonempty-keep : (p : Host → Bool) (hs : List Host) → is_empty (keep p hs) ≡ false → 0 < length hs
nonempty-keep p [] e = cc
nonempty-keep p (h ∷ hs) e = omega arith

candidates-some :
    (t : RoutingTable)
    → is_empty (keep (λ h. h.reachable) (hosts t)) ≡ false
    → candidates t ≡ keep (λ h. h.reachable) (hosts t)
unfolding candidates
candidates-some t e = or_all-some (keep (λ h. h.reachable) (hosts t)) (hosts t) e

-- The probe ends the process exactly where no host answers it. Otherwise, where the weights are
-- positive as the configuration demands, the next pick of a host comes to one that has answered the
-- probe, under every strategy and for every model, and what is known of its models is what it answered.
pub startup_probe_lem :
    (now : ℕ) (answers : Host → Option (List String)) (t : RoutingTable) (model : Option String)
    → All Weighs (hosts t)
    → Probed now answers model t (startup_probe now answers t)
unfolding startup_probe
startup_probe_lem now answers t model w =
    let probed : RoutingTable = record t { states = poll_all now answers t.states } in
    let up = keep (λ (h : Host). h.reachable) (hosts probed) in
    elim (Bool-cases (is_empty up)) [
      | inl e ↦ rw (e, startup_probe) (nothing_up now answers t.states e)
      | inr e ↦
          let (h, found) =
            (pick_total model probed (nonempty-keep (λ (h : Host). h.reachable) (hosts probed) e)
              (poll_all-Weighs now answers t.states w)).0 in
          rw (e, startup_probe)
            (
              h,
              found,
              pick-All (HasAnswered now answers (hosts t)) model probed h
                  (subst (All (HasAnswered now answers (hosts t))) (sym (candidates-some probed e))
                    (poll_all-HasAnswered now answers t.states))
                  found,
            )
    ]
