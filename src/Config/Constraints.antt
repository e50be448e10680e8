-- ===== src/Config/Constraints.antt =====
-- What a configuration that is accepted satisfies.
use ollama_queue_proxy.Prelude.{
  ℕ, ◌≤◌, ◌≡◌, ◌≢◌, ◌↔◌, ◌⊎◌, inl, inr, refl, sym, ◌∙◌, String, Bool, true, false, Option, none,
  some, List, [], ◌∷◌, All, arith, contains, str_eq, eq_iff, Bool-cases,
}
use ollama_queue_proxy.Config.{ApiKeyConfig}
use ollama_queue_proxy.Config.Checks.{
  InjectionListenerConfig, Config, Fatal, seen_port, injection_ports, client_ids, inject_as_refs,
  client_max_concurrent, loopback, public_injection_bind, or_else, validate_v2_constraints,
}

abbrev pub ports : List InjectionListenerConfig → List ℕ
ports [] = []
ports (l ∷ ls) = l.listen_port ∷ ports ls

-- No port is there twice.
abbrev pub Distinct : List ℕ → Type 0
Distinct [] = Unit
Distinct (p ∷ ps) = All (λ q. q ≢ p) ps × Distinct ps

-- Some key has that `client_id`.
abbrev pub IsClient : List ApiKeyConfig → String → Type 0
IsClient [] name = ⊥
IsClient (k ∷ ks) name = (k.client_id ≡ name) ⊎ IsClient ks name

abbrev Unseen : List ℕ → ℕ → Type 0
Unseen seen p = seen_port p seen ≡ false

nothing_seen : (ps : List ℕ) → All (Unseen []) ps
nothing_seen [] = tt
nothing_seen (p ∷ ps) = (refl, nothing_seen ps)

Unseen-cons :
    (p : ℕ) (seen ps : List ℕ)
    → All (Unseen (p ∷ seen)) ps ↔ (All (λ q. q ≢ p) ps × All (Unseen seen) ps)
Unseen-cons p seen [] = (λ h. (tt, tt), λ h. tt)
Unseen-cons p seen (q ∷ ps) =
    let (there, back) = Unseen-cons p seen ps in
    (
      λ h. let (l, r) = there h.1 in ((ground (arith, h.0), l), (ground (arith, h.0), r)),
      λ ((n, l), (u, r)). (ground arith, back (l, r)),
    )

injection_ports_exact :
    (seen : List ℕ) (ls : List InjectionListenerConfig)
    → (injection_ports seen ls ≡ none) ↔ (Distinct (ports ls) × All (Unseen seen) (ports ls))
unfolding injection_ports
injection_ports_exact seen [] = (λ h. (tt, tt), λ h. refl)
injection_ports_exact seen (l ∷ ls) =
    let (there, back) = injection_ports_exact (l.listen_port ∷ seen) ls in
    let (apart, together) = Unseen-cons l.listen_port seen (ports ls) in
    elim (Bool-cases (seen_port l.listen_port seen)) [
      | inl e ↦ (λ h. ground arith, λ h. ground (arith, h.1.0))
      | inr e ↦ (
        λ h.
            let (d, u) = there (rw e at h) in
            let (others, rest) = apart u in ((others, d), (e, rest)),
        λ ((others, d), (u, rest)). rw e (back (d, together (others, rest))),
      )
    ]

client_ids-IsClient :
    (keys : List ApiKeyConfig) (name : String)
    → (contains (client_ids keys) name ≡ true) ↔ IsClient keys name
client_ids-IsClient [] name = (λ h. cc, λ h. absurd h)
client_ids-IsClient (k ∷ ks) name =
    let (there, back) = client_ids-IsClient ks name in
    let (same, equal) = eq_iff k.client_id name in
    elim (Bool-cases (str_eq k.client_id name)) [
      | inl e ↦ (λ h. inl (same e), λ h. rw e refl)
      | inr e ↦ (
        λ h. inr (there (rw e at h)),
        elim [ inl p ↦ rw (equal p) refl | inr later ↦ rw e (back later) ],
      )
    ]

inject_as_refs_exact :
    (keys : List ApiKeyConfig) (ls : List InjectionListenerConfig)
    → (inject_as_refs (client_ids keys) ls ≡ none)
      ↔ All (λ (l : InjectionListenerConfig). IsClient keys l.inject_as) ls
unfolding inject_as_refs
inject_as_refs_exact keys [] = (λ h. tt, λ h. refl)
inject_as_refs_exact keys (l ∷ ls) =
    let (there, back) = inject_as_refs_exact keys ls in
    let (named, member) = client_ids-IsClient keys l.inject_as in
    elim (Bool-cases (contains (client_ids keys) l.inject_as)) [
      | inl e ↦ (λ h. (named e, there (rw e at h)), λ h. rw e (back h.1))
      | inr e ↦ (λ h. absurd (ground arith), λ h. absurd (cc (sym e ∙ member h.0)))
    ]

client_max_concurrent_exact :
    (cap : ℕ) (ks : List ApiKeyConfig)
    → (client_max_concurrent cap ks ≡ none) ↔ All (λ (k : ApiKeyConfig). k.max_concurrent ≤ cap) ks
unfolding client_max_concurrent
client_max_concurrent_exact cap [] = (λ h. tt, λ h. refl)
client_max_concurrent_exact cap (k ∷ ks) =
    let (there, back) = client_max_concurrent_exact cap ks in
    (λ h. (ground arith, there (ground arith)), λ h. ground (arith, back h.1))

-- A listener is bound to a loopback address, or public listeners are allowed.
abbrev pub IsBound : Bool → InjectionListenerConfig → Type 0
IsBound allowed l = (contains loopback l.bind ≡ true) ⊎ (allowed ≡ true)

public_injection_bind_exact :
    (allowed : Bool) (ls : List InjectionListenerConfig)
    → (public_injection_bind allowed ls ≡ none) ↔ All (IsBound allowed) ls
unfolding public_injection_bind
public_injection_bind_exact allowed [] = (λ h. tt, λ h. refl)
public_injection_bind_exact allowed (l ∷ ls) =
    let (there, back) = public_injection_bind_exact allowed ls in
    elim (Bool-cases (contains loopback l.bind)) [
      | inl e ↦ (λ h. (inl e, there (ground arith)), λ h. ground (arith, back h.1))
      | inr e ↦ (
        λ h. (inr (ground arith), there (ground arith)),
        λ h. elim h.0 [ inl p ↦ cc (sym p ∙ e) | inr p ↦ ground (arith, back h.1) ],
      )
    ]

or_else_exact : (a b : Option Fatal) → (or_else a b ≡ none) ↔ ((a ≡ none) × (b ≡ none))
or_else_exact none b = (λ h. (refl, h), λ h. h.1)
or_else_exact (some e) b = (λ h. cc, λ h. cc)

-- The constraints between sections hold of a configuration exactly where it is accepted: the port of
-- the proxy and those of the listeners are all different, every listener injects the `client_id` of a
-- key, no key's cap is above the global one, and only where public listeners are allowed is one bound to
-- an address that is not loopback.
pub validate_v2_constraints_exact :
    (c : Config)
    → (validate_v2_constraints c ≡ none) ↔ (
        Distinct (c.proxy.port ∷ ports c.client_injection.listeners)
        × All
            (λ (l : InjectionListenerConfig). IsClient c.auth.keys l.inject_as)
            c.client_injection.listeners
        × All (λ (k : ApiKeyConfig). k.max_concurrent ≤ c.proxy.max_concurrent) c.auth.keys
        × All (IsBound c.client_injection.allow_public_injection) c.client_injection.listeners)
unfolding validate_v2_constraints
validate_v2_constraints_exact c =
    let ls = c.client_injection.listeners in
    let p = injection_ports_exact (c.proxy.port ∷ []) ls in
    let apart = Unseen-cons c.proxy.port [] (ports ls) in
    let r = inject_as_refs_exact c.auth.keys ls in
    let k = client_max_concurrent_exact c.proxy.max_concurrent c.auth.keys in
    let b = public_injection_bind_exact c.client_injection.allow_public_injection ls in
    (
      λ h.
          let (h1, h2) = (or_else_exact _ _).0 h in
          let (h3, h4) = (or_else_exact _ _).0 h2 in
          let (h5, h6) = (or_else_exact _ _).0 h4 in
          let (d, u) = p.0 h1 in (((apart.0 u).0, d), r.0 h3, k.0 h5, b.0 h6),
      λ ((n, d), q, c1, e). (or_else_exact _ _).1 (
        p.1 (d, apart.1 (n, nothing_seen (ports ls))),
        (or_else_exact _ _).1 (r.1 q, (or_else_exact _ _).1 (k.1 c1, b.1 e)),
      ),
    )
