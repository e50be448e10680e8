-- ===== src/System/Moves.antt =====
-- What a dispatch does to the states of the clients keeps the tally.
use ollama_queue_proxy.Prelude.{
  ℕ, zero, suc, ◌+◌, ◌-◌, ◌≡◌, ◌≢◌, inl, inr, refl, sym, ap, ◌∙◌, subst, String, Option, none, some,
  List, [], ◌∷◌, ◌++◌, Dict, insert, lookup, str_eq, eq_iff, eq_refl, All, All-append, get_elem?,
  arith, Bool-cases, Option-cases, if◌then◌else◌,
}
use ollama_queue_proxy.Concurrency.{
  ClientState, Acquired, acquired, waits_for_slot, acquire, release_slot,
}
use ollama_queue_proxy.Queue.Steps.{remove_at}
use ollama_queue_proxy.System.{
  Phase, waits_for_cap, upstream_of, phase_of, acquire_for, release_for,
}
use ollama_queue_proxy.System.Tally.{
  is_for, up, parked, ups, parks, ups-append, parks-append, IsTallied, counted, acquire-IsTallied,
  release-IsTallied, IsPlaced, Tally, Tally-insert,
}

-- The dispatches change, those of a client with a state do not.
Tally-same :
    (at_first clients : Dict ClientState) (phases after : List Phase)
    → Tally at_first clients phases
    → ((c : String) (s : ClientState)
        → lookup c clients ≡ some s
        → (ups c after ≡ ups c phases) × (parks c after ≡ parks c phases))
    → All (IsPlaced clients) after
    → Tally at_first clients after
Tally-same at_first clients phases after t same placed = record {
  caps = t.caps;
  tallied = λ c s e.
      let (u, w) = same c s e in
      subst (λ n. IsTallied s n (parks c after)) (sym u)
        (subst (λ n. IsTallied s (ups c phases) n) (sym w) (t.tallied c s e));
  placed = placed;
}

ups-phase_of :
    (outcome : Acquired) (c d : String) (phases : List Phase)
    → ups d (phases ++ phase_of outcome (some c) ∷ [])
      ≡ ups d phases + (if str_eq c d then (counted outcome).0 else 0)
ups-phase_of acquired c d phases = ground (arith, ups-append d phases (upstream_of (some c) ∷ []))
ups-phase_of waits_for_slot c d phases =
    ground (arith, ups-append d phases (waits_for_cap (some c) ∷ []))

parks-phase_of :
    (outcome : Acquired) (c d : String) (phases : List Phase)
    → parks d (phases ++ phase_of outcome (some c) ∷ [])
      ≡ parks d phases + (if str_eq c d then (counted outcome).1 else 0)
parks-phase_of acquired c d phases =
    ground (arith, parks-append d phases (upstream_of (some c) ∷ []))
parks-phase_of waits_for_slot c d phases =
    ground (arith, parks-append d phases (waits_for_cap (some c) ∷ []))

phase_of-IsPlaced :
    (outcome : Acquired) (c : String) (clients : Dict ClientState)
    → lookup c clients ≢ none
    → IsPlaced clients (phase_of outcome (some c))
phase_of-IsPlaced acquired c clients h = tt
phase_of-IsPlaced waits_for_slot c clients h = h

-- A client that is known acquires a slot, or waits.
acquire-Tally :
    (at_first clients : Dict ClientState) (phases : List Phase) (c : String) (s : ClientState)
    → Tally at_first clients phases
    → lookup c clients ≡ some s
    → let (outcome, s') = acquire 0 s in
      Tally at_first (insert c s' clients) (phases ++ phase_of outcome (some c) ∷ [])
acquire-Tally at_first clients phases c s t here =
    let outcome = (acquire 0 s).0 in
    let after = phases ++ phase_of outcome (some c) ∷ [] in
    let (good, same_cap) =
      acquire-IsTallied s (ups c phases) (parks c phases) (t.tallied c s here) in
    let u : ups c phases + (counted outcome).0 ≡ ups c after =
      ground (arith, ups-phase_of outcome c c phases, eq_refl c) in
    let w : parks c phases + (counted outcome).1 ≡ parks c after =
      ground (arith, parks-phase_of outcome c c phases, eq_refl c) in
    Tally-insert at_first clients phases after c s (acquire 0 s).1 t here same_cap
      (subst (λ n. IsTallied (acquire 0 s).1 n (parks c after)) u
        (subst (λ n. IsTallied (acquire 0 s).1 (ups c phases + (counted outcome).0) n) w good))
      (λ d e. (
        ground (arith, ups-phase_of outcome c d phases),
        ground (arith, parks-phase_of outcome c d phases),
      ))
      (All-append (IsPlaced clients) phases (phase_of outcome (some c) ∷ []) t.placed
        (phase_of-IsPlaced outcome c clients (λ e. cc), tt))

-- Nobody counts a dispatch of a client that is not known.
unknown-Tally :
    (at_first clients : Dict ClientState) (phases : List Phase) (o : Option String)
    → Tally at_first clients phases
    → ((c : String) (s : ClientState) → lookup c clients ≡ some s → is_for c o ≡ 0)
    → Tally at_first clients (phases ++ upstream_of o ∷ [])
unknown-Tally at_first clients phases o t nobody =
    Tally-same at_first clients phases (phases ++ upstream_of o ∷ []) t
      (λ c s e. (
        omega (arith, ups-append c phases (upstream_of o ∷ []), nobody c s e),
        omega (arith, parks-append c phases (upstream_of o ∷ [])),
      ))
      (All-append (IsPlaced clients) phases (upstream_of o ∷ []) t.placed (tt, tt))

is_for-unknown :
    (c d : String) (s : ClientState) (clients : Dict ClientState)
    → lookup c clients ≡ none
    → lookup d clients ≡ some s
    → is_for d (some c) ≡ 0
is_for-unknown c d s clients e f = elim (Bool-cases (str_eq c d)) [
  | inl h ↦
      let same : c ≡ d = (eq_iff c d).0 h in
      let e' : lookup d clients ≡ none = subst (λ n. lookup n clients ≡ none) same e in absurd (cc)
  | inr h ↦ rw h refl
]

pub acquire_for-Tally :
    (at_first clients : Dict ClientState) (phases : List Phase) (o : Option String)
    → Tally at_first clients phases
    → let (outcome, after) = acquire_for 0 o clients in
      Tally at_first after (phases ++ phase_of outcome o ∷ [])
unfolding acquire_for
acquire_for-Tally at_first clients phases none t =
    unknown-Tally at_first clients phases none t (λ c s e. refl)
acquire_for-Tally at_first clients phases (some c) t = elim (Option-cases (lookup c clients)) [
  | inl e ↦
      rw (e, acquire_for)
        (unknown-Tally at_first clients phases (some c) t
          (λ d s f. is_for-unknown c d s clients e f))
  | inr (s, e) ↦ rw (e, acquire_for) (acquire-Tally at_first clients phases c s t e)
]

ups-remove_at :
    (d : String) (o : Option String) (phases : List Phase) (i : ℕ)
    → get_elem? phases i ≡ some (upstream_of o)
    → (ups d phases ≡ is_for d o + ups d (remove_at i phases))
      × (parks d phases ≡ parks d (remove_at i phases))
ups-remove_at d o [] i e = absurd (cc)
ups-remove_at d o (p ∷ ps) zero e =
    let same : p ≡ upstream_of o = cc in
    (ap (λ x. up d x + ups d ps) same, ap (λ x. parked d x + parks d ps) same ∙ omega arith)
ups-remove_at d o (p ∷ ps) (suc i) e =
    let (u, w) = ups-remove_at d o ps i e in (omega (arith, u), omega (arith, w))

remove_at-IsPlaced :
    (clients : Dict ClientState) (phases : List Phase) (i : ℕ)
    → All (IsPlaced clients) phases
    → All (IsPlaced clients) (remove_at i phases)
remove_at-IsPlaced clients [] i a = tt
remove_at-IsPlaced clients (p ∷ ps) zero a = a.1
remove_at-IsPlaced clients (p ∷ ps) (suc i) a = (a.0, remove_at-IsPlaced clients ps i a.1)

release-Tally :
    (at_first clients : Dict ClientState) (phases : List Phase) (i : ℕ) (c : String)
    (s : ClientState)
    → Tally at_first clients phases
    → get_elem? phases i ≡ some (upstream_of (some c))
    → lookup c clients ≡ some s
    → Tally at_first (insert c (release_slot s) clients) (remove_at i phases)
release-Tally at_first clients phases i c s t at here =
    let (u, w) = ups-remove_at c (some c) phases i at in
    let one : ups c phases ≡ 1 + ups c (remove_at i phases) = ground (arith, u, eq_refl c) in
    let (good, same_cap) =
      release-IsTallied s (ups c phases) (parks c phases) (omega (arith, one))
        (t.tallied c s here) in
    let less : ups c phases - 1 ≡ ups c (remove_at i phases) = omega (arith, one) in
    Tally-insert at_first clients phases (remove_at i phases) c s (release_slot s) t here same_cap
      (subst (λ n. IsTallied (release_slot s) n (parks c (remove_at i phases))) less
        (subst (λ n. IsTallied (release_slot s) (ups c phases - 1) n) w good))
      (λ d e.
        let (u', w') = ups-remove_at d (some c) phases i at in
        (ground (arith, u'), ground (arith, w')))
      (remove_at-IsPlaced clients phases i t.placed)

-- The end of a dispatch gives its slot back.
pub release_for-Tally :
    (at_first clients : Dict ClientState) (phases : List Phase) (i : ℕ) (o : Option String)
    → Tally at_first clients phases
    → get_elem? phases i ≡ some (upstream_of o)
    → Tally at_first (release_for o clients) (remove_at i phases)
unfolding release_for
release_for-Tally at_first clients phases i none t at =
    Tally-same at_first clients phases (remove_at i phases) t
      (λ c s e.
        let (u, w) = ups-remove_at c none phases i at in (omega (arith, u), omega (arith, w)))
      (remove_at-IsPlaced clients phases i t.placed)
release_for-Tally at_first clients phases i (some c) t at = elim (Option-cases (lookup c clients)) [
  | inl e ↦
      rw (e, release_for)
        (Tally-same at_first clients phases (remove_at i phases) t
          (λ d s f.
            let (u, w) = ups-remove_at d (some c) phases i at in
            let z = is_for-unknown c d s clients e f in (omega (arith, u, z), omega (arith, w)))
          (remove_at-IsPlaced clients phases i t.placed))
  | inr (s, e) ↦ rw (e, release_for) (release-Tally at_first clients phases i c s t at e)
]
