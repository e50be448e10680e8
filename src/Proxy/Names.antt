-- ===== src/Proxy/Names.antt =====
-- The names of the hosts: what the failover loop has tried, and what is left.
use mathlib.Core.List.{Mem, mem-cons, not-mem-nil}
use mathlib.Core.Logic.Or
use ollama_queue_proxy.Prelude.{
  ℕ, suc, ◌≤◌, ◌<◌, ◌≡◌, refl, ap, String, Bool, true, false, not, Option, none, some, List, [],
  ◌∷◌, Dict, contains, keep, length, eq_iff, arith,
}
use ollama_queue_proxy.Routing.{
  Host, RoutingTable, Decisions, hosts, values, modify, choose, candidates, with_model,
  count_round_robin, count_fallback, count_model_match, pick, pick_model_aware, mark_unhealthy,
}

abbrev pub names_of : List Host → List String
names_of [] = []
names_of (h ∷ hs) = h.name ∷ names_of hs

abbrev pub names : RoutingTable → List String
names t = names_of (hosts t)

abbrev pub fresh : List String → List String → ℕ
fresh attempted ns = length (keep (λ x. not (contains attempted x)) ns)

fresh-le : (x : String) (attempted ns : List String) → fresh (x ∷ attempted) ns ≤ fresh attempted ns
fresh-le x attempted [] = omega arith
fresh-le x attempted (y ∷ ns) = ground (arith, fresh-le x attempted ns)

-- Each attempt leaves fewer names.
pub fresh-lt :
    (x : String) (attempted ns : List String)
    → contains attempted x ≡ false
    → contains ns x ≡ true
    → fresh (x ∷ attempted) ns < fresh attempted ns
fresh-lt x attempted [] a m = cc
fresh-lt x attempted (y ∷ ns) a m =
    ground (arith, fresh-lt x attempted ns a, fresh-le x attempted ns, eq_iff x y, eq_iff y x)

pub fresh-le-length : (attempted ns : List String) → fresh attempted ns ≤ length ns
fresh-le-length attempted [] = omega arith
fresh-le-length attempted (y ∷ ns) = ground (arith, fresh-le-length attempted ns)

pub length-names_of : (hs : List Host) → length (names_of hs) ≡ length hs
length-names_of [] = refl
length-names_of (h ∷ hs) = ap suc (length-names_of hs)

pub Bool_prop : (a b : Bool) → IsProp (a ≡ b)
Bool_prop a b = hlevel

pub contains-name : (h : Host) (hs : List Host) → Mem h hs → contains (names_of hs) h.name ≡ true
contains-name h [] m = absurd (not-mem-nil m)
contains-name h (x ∷ hs) m =
    Or.elim (Bool_prop _ _) (mem-cons.0 m)
      (λ e. ground (arith, eq_iff x.name h.name, ap (λ (g : Host). g.name) e))
      (λ k. ground (arith, contains-name h hs k))

names-modify :
    (f : Host → Host) (name : String) (d : Dict Host)
    → ((h : Host) → (f h).name ≡ h.name)
    → names_of (values (modify f name d)) ≡ names_of (values d)
names-modify f name [] k = refl
names-modify f name ((j, h) ∷ d) k = ground (arith, k h, names-modify f name d k)

pub names-mark_unhealthy :
    (name : String) (t : RoutingTable) → names (mark_unhealthy name t) ≡ names t
unfolding mark_unhealthy
names-mark_unhealthy name t = names-modify _ name t.states (λ h. refl)

states-choose :
    (cs : List Host) (count : Decisions → Decisions) (t : RoutingTable)
    → (choose cs count t).1.states ≡ t.states
unfolding choose
states-choose cs count t = ground arith

pub states-pick : (model : Option String) (t : RoutingTable) → (pick model t).1.states ≡ t.states
unfolding pick pick_model_aware
states-pick none t = states-choose _ _ t
states-pick (some name) t = ground (
  arith,
  states-choose (candidates t) count_round_robin t,
  states-choose (candidates t) count_fallback t,
  states-choose (with_model name (candidates t)) count_model_match t,
)

strategy-pick : (model : Option String) (t : RoutingTable) → (pick model t).1.strategy ≡ t.strategy
unfolding pick pick_model_aware choose
strategy-pick none t = ground arith
strategy-pick (some name) t = ground arith
