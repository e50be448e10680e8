-- ===== src/Proxy/Changes/Accounts.antt =====
-- What the pollers and the requests leave of a host, and what they count.
use ollama_queue_proxy.Prelude.{
  ℕ, ◌+◌, ◌<◌, ◌≡◌, inl, inr, refl, sym, ◌∙◌, subst, String, not, ◌&&◌, Option, none, some, List,
  [], ◌∷◌, Dict, All, lookup, insert, lookup-insert, str_eq, eq_iff, length, ◌==◌, arith,
  Bool-cases, if◌then◌else◌,
}
use ollama_queue_proxy.Config.{HostConfig}
use ollama_queue_proxy.Routing.{
  Host, RoutingTable, Strategy, hosts, values, modify, poll, poll_host, mark_unhealthy, invalidate,
  init, add_hosts, host_of,
}
use ollama_queue_proxy.Routing.Total.{Weighs, total, pick_total}
use ollama_queue_proxy.Proxy.{Upstream, handled, after_answer}
use ollama_queue_proxy.Proxy.Changes.{
  Change, polls, picks, answers, fails, step, run, is_this, failed, answered, picked, times_failed,
  times_answered, times_picked,
}

-- The same host, with so many failures and answers more.
abbrev Grew : ℕ → ℕ → Host → Host → Type 0
Grew f a h g =
    (g.name ≡ h.name)
    × (g.url ≡ h.url)
    × (g.weight ≡ h.weight)
    × (g.model_sync_interval ≡ h.model_sync_interval)
    × (g.failures ≡ h.failures + f)
    × (g.requests_handled ≡ h.requests_handled + a)

-- The same hosts, in the same order.
abbrev Grown : (String → ℕ) → (String → ℕ) → Dict Host → Dict Host → Type 0
Grown f a [] [] = Unit
Grown f a [] (x ∷ d) = ⊥
Grown f a (x ∷ d) [] = ⊥
Grown f a ((k, h) ∷ d) ((j, g) ∷ e) = (j ≡ k) × Grew (f k) (a k) h g × Grown f a d e

modify-Grown :
    (f a : String → ℕ) (change : Host → Host) (name : String) (d : Dict Host)
    → ((k : String) (h : Host) → Grew (f k) (a k) h (if str_eq k name then change h else h))
    → Grown f a d (modify change name d)
modify-Grown f a change name [] grew = tt
modify-Grown f a change name ((k, h) ∷ d) grew =
    (refl, grew k h, modify-Grown f a change name d grew)

Grown-refl : (d : Dict Host) → Grown (λ k. 0) (λ k. 0) d d
Grown-refl [] = tt
Grown-refl ((k, h) ∷ d) = (refl, (refl, refl, refl, refl, omega arith, omega arith), Grown-refl d)

Grown-trans :
    (f a f' a' f'' a'' : String → ℕ) (d e c : Dict Host)
    → ((k : String) → (f'' k ≡ f k + f' k) × (a'' k ≡ a k + a' k))
    → Grown f a d e
    → Grown f' a' e c
    → Grown f'' a'' d c
Grown-trans f a f' a' f'' a'' [] [] [] s p q = tt
Grown-trans f a f' a' f'' a'' [] [] (z ∷ c) s p q = q
Grown-trans f a f' a' f'' a'' [] (y ∷ e) c s p q = absurd p
Grown-trans f a f' a' f'' a'' (x ∷ d) [] c s p q = absurd p
Grown-trans f a f' a' f'' a'' (x ∷ d) (y ∷ e) [] s p q = q
Grown-trans f a f' a' f'' a'' ((k, h) ∷ d) ((j, g) ∷ e) ((i, l) ∷ c) s (p, same, rest)
      (q, same', rest') =
    let same'' = subst (λ n. Grew (f' n) (a' n) g l) p same' in
    (q ∙ p, ground (arith, s k), Grown-trans f a f' a' f'' a'' d e c s rest rest')

fails-Grown :
    (name : String) (t : RoutingTable)
    → Grown (λ k. is_this k name) (λ k. 0) t.states (mark_unhealthy name t).states
unfolding mark_unhealthy
fails-Grown name t = modify-Grown _ _ _ name t.states (λ k h. ground arith)

poll-Grown :
    (now : ℕ) (name : String) (answer : Option (List String)) (t : RoutingTable)
    → Grown (λ k. 0) (λ k. 0) t.states (poll now answer name t).states
unfolding poll poll_host
poll-Grown now name none t = modify-Grown _ _ _ name t.states (λ k h. ground arith)
poll-Grown now name (some models) t = modify-Grown _ _ _ name t.states (λ k h. ground arith)

handled-Grown :
    (name : String) (t : RoutingTable)
    → Grown (λ k. 0) (λ k. is_this k name) t.states (handled name t).states
unfolding handled
handled-Grown name t = modify-Grown _ _ _ name t.states (λ k h. ground arith)

invalidate-Grown :
    (name model : String) (t : RoutingTable)
    → Grown (λ k. 0) (λ k. 0) t.states (invalidate name model t).states
unfolding invalidate
invalidate-Grown name model t = modify-Grown _ _ _ name t.states (λ k h. ground arith)

after_answer-Grown :
    (model : Option String) (name : String) (u : Upstream) (t : RoutingTable)
    → Grown (λ k. 0) (λ k. is_this k name) t.states (after_answer model name u t).states
unfolding after_answer
after_answer-Grown none name u t = handled-Grown name t
after_answer-Grown (some m) name u t =
    elim (Bool-cases (u.status_code == 404 && not (str_eq m "") && u.says_not_found)) [
      | inl e ↦
          rw (e, after_answer)
            (Grown-trans _ _ _ _ _ _ t.states (handled name t).states _
              (λ k. (omega arith, omega arith)) (handled-Grown name t)
              (invalidate-Grown name m (handled name t)))
      | inr e ↦ rw (e, after_answer) (handled-Grown name t)
    ]

-- What one change counts, where hosts are configured with positive weights.
abbrev Counts : ℕ → RoutingTable → RoutingTable → Type 0
Counts n t u =
    (u.rr_counter ≡ t.rr_counter + n)
    × (total u.routing_decisions ≡ total t.routing_decisions + n)
    × (u.strategy ≡ t.strategy)

after_answer-Counts :
    (model : Option String) (name : String) (u : Upstream) (t : RoutingTable)
    → Counts 0 t (after_answer model name u t)
unfolding after_answer handled invalidate
after_answer-Counts none name u t = (omega arith, omega arith, refl)
after_answer-Counts (some m) name u t = ground arith

step-Grown :
    (c : Change) (t : RoutingTable)
    → 0 < length (hosts t)
    → All Weighs (hosts t)
    → Grown (failed c) (answered c) t.states (step c t).states × Counts (picked c) t (step c t)
unfolding step mark_unhealthy
step-Grown (polls now name answer) t l w =
    (poll-Grown now name answer t, (omega arith, omega arith, refl))
step-Grown (picks model) t l w =
    let (found, same, strategy, counter, one) = pick_total model t l w in
    (
      subst (Grown (λ k. 0) (λ k. 0) t.states) (sym same) (Grown-refl t.states),
      (counter, one, strategy),
    )
step-Grown (answers model name u) t l w =
    (after_answer-Grown model name u t, after_answer-Counts model name u t)
step-Grown (fails name) t l w = (fails-Grown name t, ground arith)

-- The hosts that are left are as many, with the same weights.
Grown-Weighs :
    (f a : String → ℕ) (d e : Dict Host)
    → Grown f a d e
    → All Weighs (values d)
    → All Weighs (values e) × (length (values e) ≡ length (values d))
Grown-Weighs f a [] [] p w = (tt, refl)
Grown-Weighs f a [] (y ∷ e) p w = absurd p
Grown-Weighs f a (x ∷ d) [] p w = absurd p
Grown-Weighs f a ((k, h) ∷ d) ((j, g) ∷ e) (p, same, rest) w =
    let (heavy, long) = Grown-Weighs f a d e rest w.1 in
    ((omega (arith, same, w.0), heavy), omega (arith, long))

run-Grown :
    (changes : List Change) (t : RoutingTable)
    → 0 < length (hosts t)
    → All Weighs (hosts t)
    → Grown (times_failed changes) (times_answered changes) t.states (run changes t).states
      × Counts (times_picked changes) t (run changes t)
unfolding run
run-Grown [] t l w = (Grown-refl t.states, (omega arith, omega arith, refl))
run-Grown (c ∷ rest) t l w =
    let (grown, counts) = step-Grown c t l w in
    let (heavy, long) = Grown-Weighs (failed c) (answered c) t.states (step c t).states grown w in
    let (grown', counts') = run-Grown rest (step c t) (omega (arith, l, long)) heavy in
    (
      Grown-trans (failed c) (answered c) (times_failed rest) (times_answered rest)
          (times_failed (c ∷ rest)) (times_answered (c ∷ rest)) t.states (step c t).states
          (run rest (step c t)).states (λ k. (refl, refl)) grown grown',
      (
        omega (arith, counts.0, counts'.0),
        omega (arith, counts.1, counts'.1),
        counts'.2 ∙ counts.2,
      ),
    )

Grown-lookup :
    (f a : String → ℕ) (d e : Dict Host) (name : String) (g : Host)
    → Grown f a d e
    → lookup name e ≡ some g
    → (h : Host) × (lookup name d ≡ some h) × Grew (f name) (a name) h g
Grown-lookup f a [] [] name g p found = cc
Grown-lookup f a [] (y ∷ e) name g p found = absurd p
Grown-lookup f a (x ∷ d) [] name g p found = cc
Grown-lookup f a ((k, h) ∷ d) ((j, g') ∷ e) name g (p, same, rest) found =
    elim (Bool-cases (str_eq j name)) [
      | inl hit ↦
          let here : g' ≡ g = ground arith in
          let key : k ≡ name = sym p ∙ (eq_iff j name).0 hit in
          (
            h,
            ground arith,
            subst (λ n. Grew (f n) (a n) h g) key (subst (Grew (f k) (a k) h) here same),
          )
      | inr miss ↦
          let (h', there, grew) = Grown-lookup f a d e name g rest (ground arith) in
          (h', ground (arith, p), grew)
    ]

-- A host that has just been configured.
abbrev IsFresh : Host → Type 0
IsFresh h = (h.failures ≡ 0) × (h.requests_handled ≡ 0)

add_hosts-IsFresh :
    (hs : List HostConfig) (d : Dict Host) (name : String) (h : Host)
    → ((g : Host) → lookup name d ≡ some g → IsFresh g)
    → lookup name (add_hosts d hs) ≡ some h
    → IsFresh h
unfolding add_hosts
add_hosts-IsFresh [] d name h fresh e = fresh h e
add_hosts-IsFresh (x ∷ hs) d name h fresh e =
    add_hosts-IsFresh hs (insert x.name (host_of x) d) name h
      (λ g found. elim (Bool-cases (str_eq x.name name)) [
        | inl hit ↦
            let same : host_of x ≡ g = ground (arith, lookup-insert x.name name (host_of x) d) in
            subst IsFresh same (refl, refl)
        | inr miss ↦ fresh g (ground (arith, lookup-insert x.name name (host_of x) d))
      ])
      e

-- However polls, picks, answers and failures come after one another from the start on, where hosts are
-- configured with positive weights as the configuration demands: a host keeps its name, its URL, its
-- weight and its interval; `failures` and `requests_handled`, as `/queue/status` shows them, are how
-- often it failed and answered; and both the counter of the rotation and the routing decisions
-- together are how many picks there were, whatever the strategy.
pub run_accounts :
    (strategy : Strategy) (configured : List HostConfig) (changes : List Change) (name : String)
    (g : Host)
    → let t = init strategy configured in
      0 < length (hosts t)
      → All Weighs (hosts t)
      → lookup name (run changes t).states ≡ some g
      → ((h : Host) × (lookup name t.states ≡ some h)
          × (g.name ≡ h.name)
          × (g.url ≡ h.url)
          × (g.weight ≡ h.weight)
          × (g.model_sync_interval ≡ h.model_sync_interval))
        × (g.failures ≡ times_failed changes name)
        × (g.requests_handled ≡ times_answered changes name)
        × ((run changes t).rr_counter ≡ times_picked changes)
        × (total (run changes t).routing_decisions ≡ times_picked changes)
unfolding init
run_accounts strategy configured changes name g l w found =
    let t = init strategy configured in
    let (grown, (counter, decisions, strategies)) = run-Grown changes t l w in
    let (h, there, (n, u, w', i, f, r)) =
      Grown-lookup (times_failed changes) (times_answered changes) t.states (run changes t).states
        name g grown found in
    let (no_failure, no_answer) = add_hosts-IsFresh configured [] name h (λ x e. cc) there in
    (
      (h, there, n, u, w', i),
      omega (arith, f, no_failure),
      omega (arith, r, no_answer),
      omega (arith, counter),
      omega (arith, decisions),
    )
