-- ===== src/Proxy/Changes/Down.antt =====
-- What a failure does to the later picks, until the host answers a poll.
use ollama_queue_proxy.Prelude.{
  ℕ, ◌+◌, ◌≡◌, ◌≢◌, ◌⊎◌, inl, inr, refl, sym, ap, ◌∙◌, subst, String, Bool, true, false, not, ◌&&◌,
  Option, none, some, List, [], ◌∷◌, Dict, All, insert, keep, str_eq, eq_iff, ◌==◌, arith,
  Bool-cases, if◌then◌else◌,
}
use ollama_queue_proxy.Config.{HostConfig}
use ollama_queue_proxy.Routing.{
  Host, RoutingTable, Strategy, hosts, values, modify, candidates, or_all, poll, poll_host, pick,
  mark_unhealthy, invalidate, init, add_hosts, host_of,
}
use ollama_queue_proxy.Routing.Candidates.{All-keep, pick-All, pick_sound}
use ollama_queue_proxy.Proxy.{Upstream, handled, after_answer}
use ollama_queue_proxy.Proxy.Names.{states-pick}
use ollama_queue_proxy.Proxy.Changes.{Change, polls, picks, answers, fails, step, run}

-- Each host stands under its name, and is not taken for reachable where `goal` holds of it.
abbrev IsDown : (String → Bool) → String × Host → Type 0
IsDown goal (k, h) = (k ≡ h.name) × (goal k ≡ true → h.reachable ≡ false)

-- No poll of a host of which `goal` holds is answered.
abbrev pub IsSilent : (String → Bool) → Change → Type 0
IsSilent goal (polls now other (some models)) = goal other ≡ false
IsSilent goal _ = Unit

pub All-modify :
    (P : String × Host → Type 0) (change : Host → Host) (name : String) (d : Dict Host)
    → ((k : String) (h : Host) → P (k, h) → P (k, if str_eq k name then change h else h))
    → All P d
    → All P (modify change name d)
All-modify P change name [] kept a = tt
All-modify P change name ((k, h) ∷ d) kept a = (kept k h a.0, All-modify P change name d kept a.1)

module _ (goal : String → Bool) where
  abbrev AllDown : RoutingTable → Type 0
  AllDown t = All (IsDown goal) t.states

  same_goal : (k name : String) → goal name ≡ false → str_eq k name ≡ true → goal k ≡ false
  same_goal k name e s = ap goal ((eq_iff k name).0 s) ∙ e

  poll-IsDown :
      (now : ℕ) (name : String) (answer : Option (List String)) (t : RoutingTable)
      → IsSilent goal (polls now name answer)
      → AllDown t
      → AllDown (poll now answer name t)
  unfolding poll poll_host
  poll-IsDown now name none t quiet a = All-modify _ _ name t.states (λ k h p. ground arith) a
  poll-IsDown now name (some models) t quiet a =
      All-modify _ _ name t.states (λ k h p. ground (arith, same_goal k name quiet)) a

  handled-IsDown : (name : String) (t : RoutingTable) → AllDown t → AllDown (handled name t)
  unfolding handled
  handled-IsDown name t a = All-modify _ _ name t.states (λ k h p. ground arith) a

  invalidate-IsDown :
      (name model : String) (t : RoutingTable) → AllDown t → AllDown (invalidate name model t)
  unfolding invalidate
  invalidate-IsDown name model t a = All-modify _ _ name t.states (λ k h p. ground arith) a

  mark_unhealthy-IsDown :
      (name : String) (t : RoutingTable) → AllDown t → AllDown (mark_unhealthy name t)
  unfolding mark_unhealthy
  mark_unhealthy-IsDown name t a = All-modify _ _ name t.states (λ k h p. ground arith) a

  after_answer-IsDown :
      (model : Option String) (name : String) (u : Upstream) (t : RoutingTable)
      → AllDown t
      → AllDown (after_answer model name u t)
  unfolding after_answer
  after_answer-IsDown none name u t a = handled-IsDown name t a
  after_answer-IsDown (some m) name u t a =
      elim (Bool-cases (u.status_code == 404 && not (str_eq m "") && u.says_not_found)) [
        | inl e ↦
            rw (e, after_answer)
              (invalidate-IsDown name m (handled name t) (handled-IsDown name t a))
        | inr e ↦ rw (e, after_answer) (handled-IsDown name t a)
      ]

  step-IsDown : (c : Change) (t : RoutingTable) → IsSilent goal c → AllDown t → AllDown (step c t)
  unfolding step
  step-IsDown (polls now name answer) t quiet a = poll-IsDown now name answer t quiet a
  step-IsDown (picks model) t quiet a = subst (All (IsDown goal)) (sym (states-pick model t)) a
  step-IsDown (answers model name u) t quiet a = after_answer-IsDown model name u t a
  step-IsDown (fails name) t quiet a = mark_unhealthy-IsDown name t a

  run-IsDown :
      (changes : List Change) (t : RoutingTable)
      → All (IsSilent goal) changes
      → AllDown t
      → AllDown (run changes t)
  unfolding run
  run-IsDown [] t quiet a = a
  run-IsDown (c ∷ rest) t quiet a = run-IsDown rest (step c t) quiet.1 (step-IsDown c t quiet.0 a)

-- Nothing is known of any host.
nowhere : String → Bool
nowhere k = false

changes-IsSilent : (changes : List Change) → All (IsSilent nowhere) changes
unfolding nowhere
changes-IsSilent [] = tt
changes-IsSilent (polls now name none ∷ rest) = (tt, changes-IsSilent rest)
changes-IsSilent (polls now name (some models) ∷ rest) = (refl, changes-IsSilent rest)
changes-IsSilent (picks model ∷ rest) = (tt, changes-IsSilent rest)
changes-IsSilent (answers model name u ∷ rest) = (tt, changes-IsSilent rest)
changes-IsSilent (fails name ∷ rest) = (tt, changes-IsSilent rest)

insert-keyed :
    (name : String) (h : Host) (d : Dict Host)
    → name ≡ h.name
    → All (IsDown nowhere) d
    → All (IsDown nowhere) (insert name h d)
unfolding nowhere
insert-keyed name h [] e a = ((e, λ x. cc), tt)
insert-keyed name h ((k, g) ∷ d) e a = elim (Bool-cases (str_eq k name)) [
  | inl hit ↦ rw hit (((eq_iff k name).0 hit ∙ e, λ x. cc), a.1)
  | inr miss ↦ rw miss (a.0, insert-keyed name h d e a.1)
]

add_hosts-keyed :
    (hs : List HostConfig) (d : Dict Host)
    → All (IsDown nowhere) d
    → All (IsDown nowhere) (add_hosts d hs)
unfolding add_hosts
add_hosts-keyed [] d a = a
add_hosts-keyed (h ∷ hs) d a =
    add_hosts-keyed hs (insert h.name (host_of h) d) (insert-keyed h.name (host_of h) d refl a)

-- The failure itself.
failed-IsDown :
    (name : String) (t : RoutingTable)
    → All (IsDown nowhere) t.states
    → All (IsDown (λ k. str_eq k name)) (mark_unhealthy name t).states
unfolding mark_unhealthy
failed-IsDown name t a = go t.states a
  where
    go :
        (d : Dict Host)
        → All (IsDown nowhere) d
        → All
            (IsDown (λ k. str_eq k name))
            (modify (λ h. record h { reachable = false; failures = h.failures + 1 }) name d)
    go [] a = tt
    go ((k, h) ∷ d) a = (ground (arith, a.0.0), go d a.1)

IsDown-values :
    (name : String) (d : Dict Host)
    → All (IsDown (λ k. str_eq k name)) d
    → All (λ (h : Host). h.name ≡ name → h.reachable ≡ false) (values d)
IsDown-values name [] a = tt
IsDown-values name ((k, h) ∷ d) a =
    (λ e. a.0.1 ((eq_iff k name).1 (a.0.0 ∙ e)), IsDown-values name d a.1)

pub All-candidates : (P : Host → Type 0) (t : RoutingTable) → All P (hosts t) → All P (candidates t)
unfolding candidates
All-candidates P t a = go (keep (λ h. h.reachable) (hosts t)) (All-keep P _ (hosts t) a)
  where
    go : (up : List Host) → All P up → All P (or_all up (hosts t))
    go [] b = a
    go (h ∷ up) b = b

-- After a request has seen a host fail, and as long as no poll of it is answered, whatever else
-- happens to the table, no pick comes to that host while any other is taken for reachable: a pick that
-- comes to it finds no host reachable.
pub failed_avoided :
    (strategy : Strategy) (configured : List HostConfig) (before later : List Change)
    (name : String) (model : Option String) (h : Host)
    → All (IsSilent (λ k. str_eq k name)) later
    → let t = run later (step (fails name) (run before (init strategy configured))) in
      (pick model t).0 ≡ some h → (h.name ≢ name) ⊎ (keep (λ g. g.reachable) (hosts t) ≡ [])
unfolding init step
failed_avoided strategy configured before later name model h quiet e =
    let s = run before (init strategy configured) in
    let t = run later (mark_unhealthy name s) in
    let keyed : All (IsDown nowhere) s.states =
      run-IsDown nowhere before (init strategy configured) (changes-IsSilent before)
        (add_hosts-keyed configured [] tt) in
    let down =
      run-IsDown (λ k. str_eq k name) later (mark_unhealthy name s) quiet
        (failed-IsDown name s keyed) in
    let avoided =
      pick-All (λ (g : Host). g.name ≡ name → g.reachable ≡ false) model t h
        (All-candidates _ t (IsDown-values name t.states down)) e in
    elim (pick_sound model t h e).1 [
      | inl up ↦ inl (λ same. cc (sym up ∙ avoided same))
      | inr dead ↦ inr dead
    ]
