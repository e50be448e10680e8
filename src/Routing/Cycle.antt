-- ===== src/Routing/Cycle.antt =====
-- The weighted round robin of src/ollama_queue_proxy/routing.py over one cycle.
use native.Mathlib.Nat.{mod-eq_of_lt, add-mod_right}
use ollama_queue_proxy.Prelude.{
  ℕ, zero, suc, ◌+◌, ◌%◌, ◌<◌, ◌≡◌, refl, sym, ap, ◌∙◌, subst, Bool, Option, none, some, List, [],
  ◌∷◌, ◌++◌, keep, length, length-append, get_elem?, arith, if◌then◌else◌,
}
use mathlib.Core.List.{append_assoc}
use ollama_queue_proxy.Routing.{Host, repeat, weighted, pick_round_robin}

abbrev push : Option Host → List Host → List Host
push none hs = hs
push (some h) hs = h ∷ hs

-- `k` picks among the same candidates, one after the other.
pub picks : ℕ → List Host → ℕ → List Host
picks zero cs counter = []
picks (suc k) cs counter =
    push (pick_round_robin cs counter).0 (picks k cs (pick_round_robin cs counter).1)

abbrev pub times : (Host → Bool) → List Host → ℕ
times p hs = length (keep p hs)

-- The weight of the candidates that satisfy `p`.
pub weight_of : (Host → Bool) → List Host → ℕ
weight_of p [] = 0
weight_of p (h ∷ hs) = (if p h then h.weight else 0) + weight_of p hs

times-append : (p : Host → Bool) (xs ys : List Host) → times p (xs ++ ys) ≡ times p xs + times p ys
times-append p [] ys = omega arith
times-append p (x ∷ xs) ys = ground (arith, times-append p xs ys)

times-repeat :
    (p : Host → Bool) (n : ℕ) (h : Host) (hs : List Host)
    → times p (repeat n h hs) ≡ (if p h then n else 0) + times p hs
times-repeat p zero h hs = ground arith
times-repeat p (suc n) h hs = ground (arith, times-repeat p n h hs)

times-weighted : (p : Host → Bool) (cs : List Host) → times p (weighted cs) ≡ weight_of p cs
unfolding weighted weight_of
times-weighted p [] = refl
times-weighted p (h ∷ hs) =
    times-repeat p h.weight h (weighted hs)
    ∙ ap (λ n. (if p h then h.weight else 0) + n) (times-weighted p hs)

-- The elements of `ws` at the places counter, counter + 1, …, taken round.
sequence : ℕ → List Host → ℕ → List Host
sequence zero ws c = []
sequence (suc k) ws c = push (get_elem? ws (c % length ws)) (sequence k ws (c + 1))

push-append : (o : Option Host) (xs ys : List Host) → push o (xs ++ ys) ≡ push o xs ++ ys
push-append none xs ys = refl
push-append (some h) xs ys = refl

times-push :
    (p : Host → Bool) (o : Option Host) (hs : List Host)
    → times p (push o hs) ≡ times p hs + times p (push o [])
times-push p none hs = ground arith
times-push p (some h) hs = ground arith

sequence-snoc :
    (k : ℕ) (ws : List Host) (c : ℕ)
    → sequence (suc k) ws c ≡ sequence k ws c ++ push (get_elem? ws ((c + k) % length ws)) []
unfolding sequence
sequence-snoc zero ws c = ap (λ n. push (get_elem? ws (n % length ws)) []) (omega arith)
sequence-snoc (suc k) ws c =
    ap (push (get_elem? ws (c % length ws))) (sequence-snoc k ws (c + 1))
    ∙ push-append (get_elem? ws (c % length ws)) (sequence k ws (c + 1)) _
    ∙ ap
        (λ n.
          push (get_elem? ws (c % length ws)) (sequence k ws (c + 1))
          ++ push (get_elem? ws (n % length ws)) [])
        (omega arith)

get_elem?-append :
    (front back : List Host) (b : Host) → get_elem? (front ++ b ∷ back) (length front) ≡ some b
get_elem?-append [] back b = refl
get_elem?-append (x ∷ front) back b = get_elem?-append front back b

-- From the start of the cycle, the sequence is the list itself.
sequence-whole :
    (front back ws : List Host)
    → ws ≡ front ++ back
    → sequence (length back) ws (length front) ≡ back
unfolding sequence
sequence-whole front [] ws e = refl
sequence-whole front (b ∷ back) ws e =
    ap (λ o. push o (sequence (length back) ws (length front + 1))) found
    ∙ ap (λ xs. b ∷ xs)
        (ap (sequence (length back) ws) next
          ∙ sequence-whole (front ++ b ∷ []) back ws (e ∙ sym (append_assoc front (b ∷ []) back)))
  where
    next : length front + 1 ≡ length (front ++ b ∷ [])
    next = omega (arith, length-append front (b ∷ []))

    inside : length front < length ws
    inside = omega (arith, ap length e, length-append front (b ∷ back))

    found : get_elem? ws (length front % length ws) ≡ some b
    found =
        rw (mod-eq_of_lt inside) (
          subst (λ xs. get_elem? xs (length front) ≡ some b) (sym e)
            (get_elem?-append front back b))

-- A window of one cycle holds the same hosts wherever it starts.
shift :
    (p : Host → Bool) (w : ℕ) (ws : List Host) (c : ℕ)
    → length ws ≡ suc w
    → times p (sequence (suc w) ws (c + 1)) ≡ times p (sequence (suc w) ws c)
unfolding sequence
shift p w ws c e =
    ap (times p) (sequence-snoc w ws (c + 1))
    ∙ times-append p (sequence w ws (c + 1)) _
    ∙ ap (λ n. times p (sequence w ws (c + 1)) + times p (push (get_elem? ws n) [])) round
    ∙ sym (times-push p (get_elem? ws (c % length ws)) (sequence w ws (c + 1)))
  where
    round : (c + 1 + w) % length ws ≡ c % length ws
    round = ap (λ n. n % length ws) (omega (arith, e)) ∙ add-mod_right c (length ws)

window :
    (p : Host → Bool) (w : ℕ) (ws : List Host) (c : ℕ)
    → length ws ≡ suc w
    → times p (sequence (suc w) ws c) ≡ times p ws
window p w ws zero e =
    ap (times p) (ap (λ n. sequence n ws 0) (sym e) ∙ sequence-whole [] ws ws refl)
window p w ws (suc c) e =
    ap (λ n. times p (sequence (suc w) ws n)) (omega arith) ∙ shift p w ws c e ∙ window p w ws c e

pick_round_robin-cons :
    (cs rest : List Host) (h : Host) (c : ℕ)
    → weighted cs ≡ h ∷ rest
    → pick_round_robin cs c ≡ (get_elem? (h ∷ rest) (c % length (h ∷ rest)), c + 1)
unfolding pick_round_robin
pick_round_robin-cons cs rest h c e = rw (e, pick_round_robin)

picks-sequence :
    (k : ℕ) (cs rest : List Host) (h : Host) (c : ℕ)
    → weighted cs ≡ h ∷ rest
    → picks k cs c ≡ sequence k (h ∷ rest) c
unfolding picks sequence
picks-sequence zero cs rest h c e = refl
picks-sequence (suc k) cs rest h c e =
    ap (λ (r : Option Host × ℕ). push r.0 (picks k cs r.1)) (pick_round_robin-cons cs rest h c e)
    ∙ ap (push _) (picks-sequence k cs rest h (c + 1) e)

fair :
    (p : Host → Bool) (ws cs : List Host) (counter : ℕ)
    → weighted cs ≡ ws
    → times p (picks (length ws) cs counter) ≡ times p ws
unfolding picks
fair p [] cs counter e = refl
fair p (h ∷ rest) cs counter e =
    ap (times p) (picks-sequence (suc (length rest)) cs rest h counter e)
    ∙ window p (length rest) (h ∷ rest) counter refl

-- Over one cycle of picks among the same candidates, from any state of the counter, the hosts that
-- satisfy `p` are picked exactly as many times as they weigh together: with `p` the test for one
-- host's name, each host is picked in proportion to its weight.
pub picks_fair :
    (p : Host → Bool) (cs : List Host) (counter : ℕ)
    → times p (picks (length (weighted cs)) cs counter) ≡ weight_of p cs
picks_fair p cs counter = fair p (weighted cs) cs counter refl ∙ times-weighted p cs
