-- ===== src/Routing/Candidates.antt =====
-- Which host is picked.
use mathlib.Core.List.{Mem, mem-cons_self, mem-cons_of_mem}
use ollama_queue_proxy.Prelude.{
  ℕ, zero, suc, ◌%◌, ◌<◌, ◌≡◌, ◌≢◌, ◌⊎◌, inl, inr, refl, subst, String, Bool, true, Option, none,
  some, List, [], ◌∷◌, All, keep, length, contains, get_elem?, arith, Bool-cases, str_eq, eq_iff,
  is_empty,
}
use native.Mathlib.Nat.{mod-lt}
use ollama_queue_proxy.Routing.{
  Host, RoutingTable, Strategy, model_aware, round_robin, Decisions, hosts, candidates, or_all,
  with_model, repeat, weighted, pick_round_robin, choose, pick_model_aware, pick, count_model_match,
  count_fallback, count_round_robin,
}

module _ (P : Host → Type 0) where
  pub All-keep : (p : Host → Bool) (hs : List Host) → All P hs → All P (keep p hs)
  All-keep p [] a = tt
  All-keep p (h ∷ hs) a = elim (Bool-cases (p h)) [
    | inl e ↦ rw (e, keep) (a.0, All-keep p hs a.1)
    | inr e ↦ rw (e, keep) (All-keep p hs a.1)
  ]

  All-repeat : (n : ℕ) (h : Host) (hs : List Host) → P h → All P hs → All P (repeat n h hs)
  All-repeat zero h hs x a = a
  All-repeat (suc n) h hs x a = (x, All-repeat n h hs x a)

  pub All-weighted : (hs : List Host) → All P hs → All P (weighted hs)
  unfolding weighted
  All-weighted [] a = tt
  All-weighted (h ∷ hs) a = All-repeat h.weight h (weighted hs) a.0 (All-weighted hs a.1)

  All-get_elem? : (hs : List Host) (i : ℕ) (h : Host) → All P hs → get_elem? hs i ≡ some h → P h
  All-get_elem? [] i h a e = cc
  All-get_elem? (x ∷ hs) zero h a e = let q : x ≡ h = cc in subst P q a.0
  All-get_elem? (x ∷ hs) (suc i) h a e = All-get_elem? hs i h a.1 e

  picked :
      (ws cs : List Host) (counter : ℕ) (h : Host)
      → weighted cs ≡ ws
      → All P ws
      → (pick_round_robin cs counter).0 ≡ some h
      → P h
  unfolding pick_round_robin
  picked [] cs c h e a q = absurd (ground arith)
  picked (w ∷ ws) cs c h e a q = All-get_elem? (w ∷ ws) (c % suc (length ws)) h a (ground arith)

  -- What holds of all candidates holds of the one that is picked.
  pub choose-All :
      (cs : List Host) (count : Decisions → Decisions) (t : RoutingTable) (h : Host)
      → All P cs
      → (choose cs count t).0 ≡ some h
      → P h
  unfolding choose
  choose-All cs count t h a q = picked (weighted cs) cs t.rr_counter h refl (All-weighted cs a) q

All-true : (p : Host → Bool) (hs : List Host) → All (λ h. p h ≡ true) (keep p hs)
All-true p [] = tt
All-true p (h ∷ hs) = elim (Bool-cases (p h)) [
  | inl e ↦ rw (e, keep) (e, All-true p hs)
  | inr e ↦ rw (e, keep) (All-true p hs)
]

get_elem?-inside : (hs : List Host) (i : ℕ) → i < length hs → (h : Host) × (get_elem? hs i ≡ some h)
get_elem?-inside [] i l = elim l [ ]
get_elem?-inside (x ∷ hs) zero l = (x, refl)
get_elem?-inside (x ∷ hs) (suc i) l = get_elem?-inside hs i (omega arith)

pub picks_some :
    (ws cs : List Host) (counter : ℕ)
    → weighted cs ≡ ws
    → 0 < length ws
    → (h : Host) × ((pick_round_robin cs counter).0 ≡ some h)
unfolding pick_round_robin
picks_some [] cs c e l = elim l [ ]
picks_some (w ∷ ws) cs c e l =
    let (h, found) = get_elem?-inside (w ∷ ws) (c % suc (length ws)) (mod-lt c (omega arith)) in
    (h, ground (arith, found))

All-self : (hs gs : List Host) → ((g : Host) → Mem g hs → Mem g gs) → All (λ g. Mem g gs) hs
All-self [] gs sub = tt
All-self (h ∷ hs) gs sub =
    (sub h mem-cons_self, All-self hs gs (λ g m. sub g (mem-cons_of_mem h m)))

-- A candidate is a configured host; it is reachable, unless no host is.
abbrev IsCandidate : RoutingTable → Host → Type 0
IsCandidate t h =
    Mem h (hosts t) × ((h.reachable ≡ true) ⊎ (keep (λ g. g.reachable) (hosts t) ≡ []))

both : (P Q : Host → Type 0) (hs : List Host) → All P hs → All Q hs → All (λ h. P h × Q h) hs
both P Q [] a b = tt
both P Q (h ∷ hs) a b = ((a.0, b.0), both P Q hs a.1 b.1)

pub weaken : (P Q : Host → Type 0) (hs : List Host) → ((h : Host) → P h → Q h) → All P hs → All Q hs
weaken P Q [] f a = tt
weaken P Q (h ∷ hs) f a = (f h a.0, weaken P Q hs f a.1)

or_all-IsCandidate :
    (t : RoutingTable) (hs : List Host)
    → keep (λ g. g.reachable) (hosts t) ≡ hs
    → All (λ h. Mem h (hosts t) × (h.reachable ≡ true)) hs
    → All (IsCandidate t) (or_all hs (hosts t))
or_all-IsCandidate t [] e a =
    weaken _ _ (hosts t) (λ h m. (m, inr e)) (All-self (hosts t) (hosts t) (λ g m. m))
or_all-IsCandidate t (h ∷ hs) e a = weaken _ _ (h ∷ hs) (λ g x. (x.0, inl x.1)) a

candidates-IsCandidate : (t : RoutingTable) → All (IsCandidate t) (candidates t)
unfolding candidates
candidates-IsCandidate t =
    let up = λ (g : Host). g.reachable in
    or_all-IsCandidate t (keep up (hosts t)) refl (
      both _ _ (keep up (hosts t))
        (All-keep (λ g. Mem g (hosts t)) up (hosts t) (All-self (hosts t) (hosts t) (λ g m. m)))
        (All-true up (hosts t)))

-- What a strategy adds: under `model_aware`, for a request that names a model, the host has the
-- model, unless no candidate has it.
abbrev pub Prefers : Option String → RoutingTable → Host → Type 0
Prefers none t h = Unit
Prefers (some model) t h =
    t.strategy ≡ model_aware
    → model ≢ ""
    → (contains h.installed_models model ≡ true) ⊎ (with_model model (candidates t) ≡ [])

abbrev Sound : Option String → RoutingTable → Host → Type 0
Sound model t h =
    Mem h (hosts t)
    × ((h.reachable ≡ true) ⊎ (keep (λ g. g.reachable) (hosts t) ≡ []))
    × Prefers model t h

any_candidate :
    (model : Option String) (count : Decisions → Decisions) (t : RoutingTable) (h : Host)
    → Prefers model t h
    → (choose (candidates t) count t).0 ≡ some h
    → Sound model t h
any_candidate model count t h prefers e =
    let c = choose-All (IsCandidate t) (candidates t) count t h (candidates-IsCandidate t) e in
    (c.0, c.1, prefers)

empty-nil : (hs : List Host) → is_empty hs ≡ true → hs ≡ []
empty-nil [] e = refl
empty-nil (h ∷ hs) e = cc

pick_model_aware-Sound :
    (name : String) (t : RoutingTable) (h : Host)
    → (pick_model_aware name t).0 ≡ some h
    → Sound (some name) t h
unfolding pick_model_aware
pick_model_aware-Sound name t h e =
    let matching = with_model name (candidates t) in
    elim (Bool-cases (is_empty matching)) [
      | inl no_match ↦
          any_candidate (some name) count_fallback t h (λ _ _. inr (empty-nil matching no_match))
            (ground arith)
      | inr some_match ↦
          (let c =
              choose-All (λ g. IsCandidate t g × (contains g.installed_models name ≡ true)) matching
                count_model_match t h
                (both _ _ matching
                  (All-keep (IsCandidate t) _ (candidates t) (candidates-IsCandidate t))
                  (All-true _ (candidates t)))
                (ground arith) in
            (c.0.0, c.0.1, λ _ _. inl c.1))
    ]

pick_named-All :
    (P : Host → Type 0) (s : Strategy) (name : String) (t : RoutingTable) (h : Host)
    → t.strategy ≡ s
    → All P (candidates t)
    → (pick (some name) t).0 ≡ some h
    → P h
unfolding pick pick_model_aware
pick_named-All P round_robin name t h p a e =
    choose-All P (candidates t) count_round_robin t h a (ground arith)
pick_named-All P model_aware name t h p a e = elim (Bool-cases (str_eq name "")) [
  | inl blank ↦ choose-All P (candidates t) count_round_robin t h a (ground arith)
  | inr named ↦ elim (Bool-cases (is_empty (with_model name (candidates t)))) [
    | inl no_match ↦ choose-All P (candidates t) count_fallback t h a (ground arith)
    | inr some_match ↦
        choose-All P (with_model name (candidates t)) count_model_match t h
          (All-keep P _ (candidates t) a) (ground arith)
  ]
]

pick_named-Sound :
    (s : Strategy) (name : String) (t : RoutingTable) (h : Host)
    → t.strategy ≡ s
    → (pick (some name) t).0 ≡ some h
    → Sound (some name) t h
unfolding pick
pick_named-Sound round_robin name t h p e =
    any_candidate (some name) count_round_robin t h (λ q _. cc) (ground arith)
pick_named-Sound model_aware name t h p e = elim (Bool-cases (str_eq name "")) [
  | inl blank ↦
      any_candidate (some name) count_round_robin t h (λ _ n. absurd (n ((eq_iff name "").0 blank)))
        (ground arith)
  | inr named ↦ pick_model_aware-Sound name t h (ground arith)
]

-- What holds of all candidates holds of the host that is picked.
pub pick-All :
    (P : Host → Type 0) (model : Option String) (t : RoutingTable) (h : Host)
    → All P (candidates t)
    → (pick model t).0 ≡ some h
    → P h
unfolding pick
pick-All P none t h a e = choose-All P (candidates t) count_round_robin t h a e
pick-All P (some name) t h a e = pick_named-All P t.strategy name t h refl a e

-- The host that is picked is a configured one. It is reachable unless no host is, and under
-- `model_aware` it has the model that the request names unless no candidate has.
pub pick_sound :
    (model : Option String) (t : RoutingTable) (h : Host)
    → (pick model t).0 ≡ some h
    → Mem h (hosts t)
      × ((h.reachable ≡ true) ⊎ (keep (λ g. g.reachable) (hosts t) ≡ []))
      × Prefers model t h
unfolding pick
pick_sound none t h e = any_candidate none count_round_robin t h tt e
pick_sound (some name) t h e = pick_named-Sound t.strategy name t h refl e
