-- ===== src/Proxy/Failover.antt =====
-- The end of the failover loop of src/ollama_queue_proxy/proxy.py.

use ollama_queue_proxy.Prelude.{
  ℕ, zero, suc, ◌+◌, ◌<◌, ◌≡◌, ◌⊎◌, refl, ap, ◌∙◌, String, false, Option, some, List, [], ◌∷◌,
  contains, length, arith, Bool-cases, Option-cases, inl, inr,
}
use ollama_queue_proxy.Routing.{Host, RoutingTable, hosts, values, pick, mark_unhealthy}
use ollama_queue_proxy.Routing.Candidates.{pick_sound}
use ollama_queue_proxy.Proxy.{
  Upstream, Reply, responds, connection_failure, other_failure, Attempted, answered, exhausted,
  raises, attempt,
}
use ollama_queue_proxy.Proxy.Names.{
  names, names_of, fresh, fresh-lt, fresh-le-length, length-names_of, contains-name,
  names-mark_unhealthy, states-pick,
}

pub Reply-cases :
    (r : Reply)
    → ((u : Upstream) × (r ≡ responds u)) ⊎ ((r ≡ connection_failure) ⊎ (r ≡ other_failure))
Reply-cases (responds u) = inl (u, refl)
Reply-cases connection_failure = inr (inl refl)
Reply-cases other_failure = inr (inr refl)

module _ (send : ℕ → Host → Reply) (others : ℕ → RoutingTable → RoutingTable)
    (model : Option String) (kept : (n : ℕ) (t : RoutingTable) → names (others n t) ≡ names t) where
  names-next :
      (n : ℕ) (name : String) (t : RoutingTable)
      → names (mark_unhealthy name (others n (pick model t).1)) ≡ names t
  names-next n name t =
      names-mark_unhealthy name (others n (pick model t).1)
      ∙ kept n (pick model t).1
      ∙ ap (λ d. names_of (values d)) (states-pick model t)

  fewer :
      (fuel n : ℕ) (attempted : List String) (t : RoutingTable) (host : Host)
      → fresh attempted (names t) < suc fuel
      → (pick model t).0 ≡ some host
      → contains attempted host.name ≡ false
      → fresh (host.name ∷ attempted) (names (mark_unhealthy host.name (others n (pick model t).1)))
        < fuel
  fewer fuel n attempted t host l e new =
      let less =
        fresh-lt host.name attempted (names t) new
          (contains-name host (hosts t) (pick_sound model t host e).0) in
      omega (arith, less, ap (fresh (host.name ∷ attempted)) (names-next n host.name t))

  attempt_ends :
      (fuel n : ℕ) (attempted : List String) (t : RoutingTable)
      → fresh attempted (names t) < fuel
      → (r : Attempted) × ((attempt send others model fuel n attempted t).0 ≡ some r)
  unfolding attempt
  attempt_ends zero n attempted t l = absurd (omega arith)
  attempt_ends (suc fuel) n attempted t l = elim (Option-cases (pick model t).0) [
    | inl e ↦ (exhausted, ground arith)
    | inr (host, e) ↦ elim (Bool-cases (contains attempted host.name)) [
      | inl again ↦ (exhausted, ground arith)
      | inr new ↦ elim (Reply-cases (send n host)) [
        | inl (u, answer) ↦ (answered host.name u, ground arith)
        | inr (inr other) ↦ (raises, ground arith)
        | inr (inl failure) ↦
            (let next = mark_unhealthy host.name (others n (pick model t).1) in
              let (r, ends) =
                attempt_ends fuel (n + 1) (host.name ∷ attempted) next
                  (fewer fuel n attempted t host l e new) in
              (r, ground (arith, ends)))
      ]
    ]
  ]

-- The loop of `dispatch_request` ends, whatever hosts answer and whatever other tasks do to the
-- table meanwhile, as long as they do not rename hosts: one attempt more than there are hosts is
-- enough.
pub failover_ends :
    (send : ℕ → Host → Reply) (others : ℕ → RoutingTable → RoutingTable) (model : Option String)
    (t : RoutingTable)
    → ((n : ℕ) (u : RoutingTable) → names (others n u) ≡ names u)
    → (r : Attempted) × ((attempt send others model (suc (length (hosts t))) 0 [] t).0 ≡ some r)
failover_ends send others model t kept =
    attempt_ends send others model kept (suc (length (hosts t))) 0 [] t
      (omega (arith, fresh-le-length [] (names t), length-names_of (hosts t)))
