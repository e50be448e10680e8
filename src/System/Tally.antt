-- ===== src/System/Tally.antt =====
-- The states of the clients count what the workers do for them.
use ollama_queue_proxy.Prelude.{
  ℕ, ◌+◌, ◌-◌, ◌≤◌, ◌<◌, ◌≡◌, ◌≢◌, ◌⊎◌, inl, inr, sym, ap, ◌∙◌, subst, String, true, false, Option,
  none, some, List, [], ◌∷◌, ◌++◌, Dict, insert, lookup, lookup-insert, lookup-insert_self, str_eq,
  eq_iff, All, arith, Bool-cases, if◌then◌else◌,
}
use ollama_queue_proxy.Concurrency.{
  ClientState, Acquired, acquired, waits_for_slot, acquire, wake_up, release_slot,
}
use ollama_queue_proxy.System.{Phase, waits_for_cap, upstream_of, can_go_on}

abbrev pub is_for : String → Option String → ℕ
is_for c none = 0
is_for c (some d) = if str_eq d c then 1 else 0

abbrev pub up : String → Phase → ℕ
up c (waits_for_cap o) = 0
up c (upstream_of o) = is_for c o

abbrev pub parked : String → Phase → ℕ
parked c (waits_for_cap o) = is_for c o
parked c (upstream_of o) = 0

-- How many dispatches of a client are upstream, and how many wait for its cap.
abbrev pub ups : String → List Phase → ℕ
ups c [] = 0
ups c (p ∷ ps) = up c p + ups c ps

abbrev pub parks : String → List Phase → ℕ
parks c [] = 0
parks c (p ∷ ps) = parked c p + parks c ps

pub ups-append : (c : String) (ps qs : List Phase) → ups c (ps ++ qs) ≡ ups c ps + ups c qs
ups-append c [] qs = omega arith
ups-append c (p ∷ ps) qs = omega (arith, ups-append c ps qs)

pub parks-append : (c : String) (ps qs : List Phase) → parks c (ps ++ qs) ≡ parks c ps + parks c qs
parks-append c [] qs = omega arith
parks-append c (p ∷ ps) qs = omega (arith, parks-append c ps qs)

-- A client's state with so many dispatches upstream, and so many that wait.
unfoldable pub IsTallied : ClientState → ℕ → ℕ → Type 0
IsTallied s u w =
    (s.inflight ≡ u)
    × (s.waiters ≡ w)
    × (s.cap_waiting ≡ w)
    × (((s.cap ≡ 0) × (s.semaphore ≡ none) × (w ≡ 0))
        ⊎ ((0 < s.cap) × (s.semaphore ≡ some (s.cap - u)) × (u ≤ s.cap)))

abbrev pub counted : Acquired → ℕ × ℕ
counted acquired = (1, 0)
counted waits_for_slot = (0, 1)

pub acquire-IsTallied :
    (s : ClientState) (u w : ℕ)
    → IsTallied s u w
    → let (outcome, after) = acquire 0 s in
      IsTallied after (u + (counted outcome).0) (w + (counted outcome).1) × (after.cap ≡ s.cap)
unfolding acquire IsTallied
acquire-IsTallied s u w (i, a, b, inl (c, n, z)) = ground arith
acquire-IsTallied s u w (i, a, b, inr (c, n, z)) = ground arith

pub release-IsTallied :
    (s : ClientState) (u w : ℕ)
    → 0 < u
    → IsTallied s u w
    → IsTallied (release_slot s) (u - 1) w × ((release_slot s).cap ≡ s.cap)
unfolding release_slot IsTallied
release-IsTallied s u w h (i, a, b, inl (c, n, z)) = ground arith
release-IsTallied s u w h (i, a, b, inr (c, n, z)) = ground arith

pub wake_up-IsTallied :
    (s : ClientState) (u w : ℕ)
    → can_go_on s ≡ true
    → IsTallied s u w
    → IsTallied (wake_up s) (u + 1) (w - 1) × ((wake_up s).cap ≡ s.cap) × (0 < w)
unfolding wake_up IsTallied
wake_up-IsTallied s u w h (i, a, b, inl (c, n, z)) = ground arith
wake_up-IsTallied s u w h (i, a, b, inr (c, n, z)) = ground arith

abbrev pub state_cap : Option ClientState → Option ℕ
state_cap none = none
state_cap (some s) = some s.cap

abbrev pub cap_of : String → Dict ClientState → Option ℕ
cap_of c clients = state_cap (lookup c clients)

-- Only a client that is known waits for a cap.
abbrev pub IsPlaced : Dict ClientState → Phase → Type 0
IsPlaced clients (waits_for_cap none) = ⊥
IsPlaced clients (waits_for_cap (some c)) = lookup c clients ≢ none
IsPlaced clients (upstream_of o) = Unit

-- Each client's state is tallied, and has the cap that it had at first.
pub record Tally (at_first clients : Dict ClientState) (phases : List Phase) : Type 0 where
  pub caps : (c : String) → cap_of c clients ≡ cap_of c at_first
  pub tallied :
      (c : String) (s : ClientState)
      → lookup c clients ≡ some s
      → IsTallied s (ups c phases) (parks c phases)
  pub placed : All (IsPlaced clients) phases

lookup-kept :
    (c d : String) (s : ClientState) (clients : Dict ClientState)
    → lookup d clients ≢ none
    → lookup d (insert c s clients) ≢ none
lookup-kept c d s clients h e = elim (Bool-cases (str_eq c d)) [
  | inl same ↦ absurd (ground (arith, lookup-insert c d s clients))
  | inr other ↦ h (ground (arith, lookup-insert c d s clients))
]

IsPlaced-insert :
    (c : String) (s : ClientState) (clients : Dict ClientState) (phases : List Phase)
    → All (IsPlaced clients) phases
    → All (IsPlaced (insert c s clients)) phases
IsPlaced-insert c s clients [] a = tt
IsPlaced-insert c s clients (waits_for_cap none ∷ ps) a = absurd (a.0)
IsPlaced-insert c s clients (waits_for_cap (some d) ∷ ps) a =
    (lookup-kept c d s clients a.0, IsPlaced-insert c s clients ps a.1)
IsPlaced-insert c s clients (upstream_of o ∷ ps) a = (tt, IsPlaced-insert c s clients ps a.1)

some_eq : (s t : ClientState) → some s ≡ some t → s ≡ t
some_eq s t e = cc

lookup-other :
    (c d : String) (s : ClientState) (clients : Dict ClientState)
    → str_eq c d ≡ false
    → lookup d (insert c s clients) ≡ lookup d clients
lookup-other c d s clients e = ground (arith, lookup-insert c d s clients)

-- One client's state changes, with its dispatches alone.
pub Tally-insert :
    (at_first clients : Dict ClientState) (phases after : List Phase) (c : String)
    (s s' : ClientState)
    → Tally at_first clients phases
    → lookup c clients ≡ some s
    → s'.cap ≡ s.cap
    → IsTallied s' (ups c after) (parks c after)
    → ((d : String)
        → str_eq c d ≡ false
        → (ups d after ≡ ups d phases) × (parks d after ≡ parks d phases))
    → All (IsPlaced clients) after
    → Tally at_first (insert c s' clients) after
Tally-insert at_first clients phases after c s s' t here same_cap good others placed = record {
  caps = λ d. elim (Bool-cases (str_eq c d)) [
    | inl e ↦
        let same : c ≡ d = (eq_iff c d).0 e in
        subst (λ n. cap_of n (insert c s' clients) ≡ cap_of n at_first) same
          (ap state_cap (lookup-insert_self c s' clients)
            ∙ ap some same_cap
            ∙ sym (ap state_cap here)
            ∙ t.caps c)
    | inr e ↦ ap state_cap (lookup-other c d s' clients e) ∙ t.caps d
  ];
  tallied = λ d x found. elim (Bool-cases (str_eq c d)) [
    | inl e ↦
        let same : c ≡ d = (eq_iff c d).0 e in
        let state : s' ≡ x = some_eq s' x (
          sym (lookup-insert_self c s' clients)
          ∙ ap (λ n. lookup n (insert c s' clients)) same
          ∙ found) in
        subst (λ n. IsTallied x (ups n after) (parks n after)) same
          (subst (λ y. IsTallied y (ups c after) (parks c after)) state good)
    | inr e ↦
        let (u, w) = others d e in
        subst (λ n. IsTallied x n (parks d after)) (sym u)
          (subst (λ n. IsTallied x (ups d phases) n) (sym w)
            (t.tallied d x (sym (lookup-other c d s' clients e) ∙ found)))
  ];
  placed = IsPlaced-insert c s' clients after placed;
}
