-- ===== src/Proxy/Reaches.antt =====
-- The failover loop of src/ollama_queue_proxy/proxy.py where some host is up.
use mathlib.Core.List.{Mem, mem-cons, not-mem-nil}
use mathlib.Core.Logic.Or
use ollama_queue_proxy.Prelude.{
  ℕ, zero, suc, ◌+◌, ◌<◌, ◌≡◌, ◌≢◌, ◌⊎◌, refl, ap, sym, subst, ◌∙◌, String, Bool, true, false, ◌&&◌,
  Option, none, some, List, [], ◌∷◌, All, any, keep, Dict, contains, length, str_eq, eq_iff, arith,
  Bool-cases, Option-cases, inl, inr, if◌then◌else◌,
}
use ollama_queue_proxy.Routing.{Host, RoutingTable, hosts, values, modify, pick, mark_unhealthy}
use ollama_queue_proxy.Routing.Candidates.{pick_sound}
use ollama_queue_proxy.Routing.Total.{Weighs, pick_total}
use ollama_queue_proxy.Proxy.{
  Upstream, Reply, responds, connection_failure, other_failure, Attempted, answered, exhausted,
  raises, attempt,
}
use ollama_queue_proxy.Proxy.Names.{
  Bool_prop, names, names_of, contains-name, names-mark_unhealthy, states-pick,
}
use ollama_queue_proxy.Proxy.Failover.{Reply-cases, failover_ends}

-- The state of the search for a host of name `goal`: the hosts tried so far are marked, and a host
-- of that name is reachable.
abbrev Marked : List String → String × Host → Type 0
Marked attempted (k, h) =
    (k ≡ h.name) × (0 < h.weight) × (contains attempted h.name ≡ true → h.reachable ≡ false)

abbrev pub is_live : String → Host → Bool
is_live goal h = str_eq h.name goal && h.reachable

abbrev down : Host → Host
down h = record h { reachable = false; failures = h.failures + 1 }

Marked-modify :
    (name : String) (attempted : List String) (d : Dict Host)
    → All (Marked attempted) d
    → All (Marked (name ∷ attempted)) (modify down name d)
Marked-modify name attempted [] a = tt
Marked-modify name attempted ((k, h) ∷ d) a = (
  (
    ground (arith, a.0.0),
    ground (arith, a.0.1),
    λ c. ground (arith, a.0.0, a.0.2, eq_iff k name, eq_iff name h.name),
  ),
  Marked-modify name attempted d a.1,
)

live-modify :
    (goal name : String) (attempted : List String) (d : Dict Host)
    → name ≢ goal
    → All (Marked attempted) d
    → any (is_live goal) (values d) ≡ true
    → any (is_live goal) (values (modify down name d)) ≡ true
live-modify goal name attempted [] n a l = l
live-modify goal name attempted ((k, h) ∷ d) n a l =
    ground
      (arith, a.0.0, eq_iff k name, eq_iff h.name goal, live-modify goal name attempted d n a.1)

Weighs-values :
    (attempted : List String) (d : Dict Host) → All (Marked attempted) d → All Weighs (values d)
Weighs-values attempted [] a = tt
Weighs-values attempted ((k, h) ∷ d) a = (a.0.1, Weighs-values attempted d a.1)

live-nonempty : (goal : String) (hs : List Host) → any (is_live goal) hs ≡ true → 0 < length hs
live-nonempty goal [] l = cc
live-nonempty goal (h ∷ hs) l = omega arith

live-keep :
    (goal : String) (hs : List Host)
    → any (is_live goal) hs ≡ true
    → keep (λ g. g.reachable) hs ≢ []
live-keep goal [] l e = cc
live-keep goal (h ∷ hs) l e = ground (arith, live-keep goal hs)

tried-unreachable :
    (attempted : List String) (d : Dict Host) (h : Host)
    → All (Marked attempted) d
    → Mem h (values d)
    → contains attempted h.name ≡ true
    → h.reachable ≡ false
tried-unreachable attempted [] h a m c = absurd (not-mem-nil m)
tried-unreachable attempted ((k, g) ∷ d) h a m c =
    Or.elim (Bool_prop _ _) (mem-cons.0 m) (λ e. ground (arith, a.0.2, e))
      (λ n. tried-unreachable attempted d h a.1 n c)

true≢false : true ≢ false
true≢false e = cc

module _ (send : ℕ → Host → Reply) (model : Option String) (goal : String)
    (answers : (n : ℕ) (h : Host) → h.name ≡ goal → send n h ≢ connection_failure) where
  untried :
      (t : RoutingTable) (host : Host) (attempted : List String)
      → All (Marked attempted) t.states
      → any (is_live goal) (hosts t) ≡ true
      → Mem host (hosts t)
      → (host.reachable ≡ true) ⊎ (keep (λ g. g.reachable) (hosts t) ≡ [])
      → contains attempted host.name ≡ false
  untried t host attempted a l member (inr none_up) = absurd (live-keep goal (hosts t) l none_up)
  untried t host attempted a l member (inl up) = elim (Bool-cases (contains attempted host.name)) [
    | inl c ↦ absurd (true≢false (sym up ∙ tried-unreachable attempted t.states host a member c))
    | inr c ↦ c
  ]

  not_exhausted :
      (fuel n : ℕ) (attempted : List String) (t : RoutingTable)
      → All (Marked attempted) t.states
      → any (is_live goal) (hosts t) ≡ true
      → (attempt send (λ _ u. u) model fuel n attempted t).0 ≢ some exhausted
  unfolding attempt mark_unhealthy
  not_exhausted zero n attempted t a l e = cc
  not_exhausted (suc fuel) n attempted t a l e =
      let ((host, picked), same, _, _, _) =
        pick_total model t (live-nonempty goal (hosts t) l) (Weighs-values attempted t.states a) in
      let (member, up, _) = pick_sound model t host picked in
      elim (Reply-cases (send n host)) [
        | inl (u, r) ↦ ground (arith, untried t host attempted a l member up)
        | inr (inr r) ↦ ground (arith, untried t host attempted a l member up)
        | inr (inl r) ↦
            (let name = host.name in
              let other : name ≢ goal = λ q. answers n host q r in
              not_exhausted fuel (n + 1) (name ∷ attempted) (mark_unhealthy name (pick model t).1)
                (subst (λ d. All (Marked (name ∷ attempted)) (modify down name d)) (sym same)
                  (Marked-modify name attempted t.states a))
                (subst (λ d. any (is_live goal) (values (modify down name d)) ≡ true) (sym same)
                  (live-modify goal name attempted t.states other a l))
                (ground (arith, untried t host attempted a l member up)))
      ]

-- A dictionary entry holds a host under its name, with a positive weight.
abbrev pub IsEntry : String × Host → Type 0
IsEntry (k, h) = (k ≡ h.name) × (0 < h.weight)

marked : (d : Dict Host) → All IsEntry d → All (Marked []) d
marked [] a = tt
marked ((k, h) ∷ d) a = ((a.0.0, a.0.1, λ c. cc), marked d a.1)

-- What stands behind an end of the loop: a host of the table that has answered so, or one whose
-- request has raised.
abbrev IsSound : (ℕ → Host → Reply) → List String → Option Attempted → Type 0
IsSound send ns none = Unit
IsSound send ns (some exhausted) = Unit
IsSound send ns (some (answered name u)) =
    (n : ℕ) × (h : Host) × (h.name ≡ name) × (contains ns name ≡ true) × (send n h ≡ responds u)
IsSound send ns (some raises) = (n : ℕ) × (h : Host) × (send n h ≡ other_failure)

module _ (send : ℕ → Host → Reply) (model : Option String) (ns : List String) where
  if-IsSound :
      (b : Bool) (x y : Option Attempted × RoutingTable)
      → IsSound send ns x.0
      → IsSound send ns y.0
      → IsSound send ns (if b then x else y).0
  if-IsSound true x y p q = p
  if-IsSound false x y p q = q

  attempt-IsSound :
      (fuel n : ℕ) (attempted : List String) (t : RoutingTable)
      → names t ≡ ns
      → IsSound send ns (attempt send (λ _ u. u) model fuel n attempted t).0
  unfolding attempt
  attempt-IsSound zero n attempted t e = tt
  attempt-IsSound (suc fuel) n attempted t e = elim (Option-cases (pick model t).0) [
    | inl p ↦ rw (attempt, p) tt
    | inr (host, p) ↦
        let known : contains ns host.name ≡ true =
          subst (λ l. contains l host.name ≡ true) e
            (contains-name host (hosts t) (pick_sound model t host p).0) in
        let later =
          attempt-IsSound fuel (n + 1) (host.name ∷ attempted)
            (mark_unhealthy host.name (pick model t).1)
            (names-mark_unhealthy host.name (pick model t).1
              ∙ ap (λ d. names_of (values d)) (states-pick model t)
              ∙ e) in
        elim (Reply-cases (send n host)) [
          | inl (u, r) ↦
              rw (attempt, p, r)
                (if-IsSound (contains attempted host.name) _ _ tt (n, host, refl, known, r))
          | inr (inr r) ↦
              rw (attempt, p, r) (if-IsSound (contains attempted host.name) _ _ tt (n, host, r))
          | inr (inl r) ↦
              rw (attempt, p, r) (if-IsSound (contains attempted host.name) _ _ tt later)
        ]
  ]

-- As long as other tasks leave the table alone, and no request to a host raises anything but the
-- failures of a connection that the loop handles: where some host is marked reachable and its name's
-- connection does not fail, the loop of `dispatch_request` comes to an answer, one that `send` has for a
-- host whose name is in the table, in whatever order the strategy picks and however many other
-- hosts fail first.
pub failover_reaches :
    (send : ℕ → Host → Reply) (model : Option String) (goal : String) (t : RoutingTable)
    → ((n : ℕ) (h : Host) → send n h ≢ other_failure)
    → ((n : ℕ) (h : Host) → h.name ≡ goal → send n h ≢ connection_failure)
    → All IsEntry t.states
    → any (is_live goal) (hosts t) ≡ true
    → (name : String) × (u : Upstream) × ((attempt send
          (λ _ x. x)
          model
          (suc (length (hosts t)))
          0
          []
          t).0
        ≡ some (answered name u))
      × ((n : ℕ) × (h : Host) × (h.name ≡ name)
          × (contains (names t) name ≡ true)
          × (send n h ≡ responds u))
failover_reaches send model goal t calm answers entries live =
    let (r, e) = failover_ends send (λ _ x. x) model t (λ n x. refl) in
    let left =
      not_exhausted send model goal answers (suc (length (hosts t))) 0 [] t
        (marked t.states entries) live in
    let sound =
      subst (IsSound send (names t)) e
        (attempt-IsSound send model (names t) (suc (length (hosts t))) 0 [] t refl) in
    go r e sound left
  where
    go :
        (r : Attempted)
        → (attempt send (λ _ x. x) model (suc (length (hosts t))) 0 [] t).0 ≡ some r
        → IsSound send (names t) (some r)
        → (attempt send (λ _ x. x) model (suc (length (hosts t))) 0 [] t).0 ≢ some exhausted
        → (name : String) × (u : Upstream) × ((attempt send
              (λ _ x. x)
              model
              (suc (length (hosts t)))
              0
              []
              t).0
            ≡ some (answered name u))
          × ((n : ℕ) × (h : Host) × (h.name ≡ name)
              × (contains (names t) name ≡ true)
              × (send n h ≡ responds u))
    go (answered name u) e sound left = (name, u, e, sound)
    go exhausted e sound left = absurd (left e)
    go raises e sound left = absurd (calm sound.0 sound.1 sound.2)
