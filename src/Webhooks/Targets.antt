-- ===== src/Webhooks/Targets.antt =====
-- Where deliveries may go, and two ways past the test for it.
use ollama_queue_proxy.Prelude.{
  ℕ, ◌+◌, ◌*◌, ◌^◌, ◌<◌, ◌≡◌, ◌⊎◌, inl, inr, String, true, false, Option, none, some, List, [], ◌∷◌,
  All, contains, str_eq, arith, Bool-cases, Option-cases,
}
use ollama_queue_proxy.Proxy.Dispatch.{has}
use ollama_queue_proxy.Webhooks.{
  Address, v6, is_private, not_an_address, accepted, refused, Resolved, unknown_host, resolves_to,
  check_all, check_resolved, by_name, validate_host, with_hostname, validate_webhook_url,
}

abbrev pub IsPublic : Address → Type 0
IsPublic a = is_private a ≡ false

check_all-IsPublic : (more : List Address) → check_all more ≡ accepted → All IsPublic more
unfolding check_all
check_all-IsPublic [] h = tt
check_all-IsPublic (a ∷ more) h = elim (Bool-cases (is_private a)) [
  | inl e ↦ absurd (ground arith)
  | inr e ↦ (e, check_all-IsPublic more (ground arith))
]

-- The addresses that a name resolves to, at least one, are all public.
abbrev pub IsResolved : Resolved → Type 0
IsResolved unknown_host = ⊥
IsResolved (resolves_to []) = ⊥
IsResolved (resolves_to (a ∷ more)) = All IsPublic (a ∷ more)

check_resolved-IsResolved : (r : Resolved) → check_resolved r ≡ accepted → IsResolved r
unfolding check_resolved
check_resolved-IsResolved unknown_host h = cc
check_resolved-IsResolved (resolves_to []) h = cc
check_resolved-IsResolved (resolves_to (a ∷ more)) h = check_all-IsPublic (a ∷ more) h

module _ (urlparse : String → String × Option String) (ip_address : String → Option Address)
    (message : String → String) (resolve : String → Resolved) where
  -- What the host of an accepted URL stands for.
  abbrev pub Targets : List String → String → Type 0
  Targets allowed_hosts host =
      (contains allowed_hosts host ≡ true)
      ⊎ ((a : Address) × (ip_address host ≡ some a) × IsPublic a)
      ⊎ ((ip_address host ≡ none) × IsResolved (resolve host))

  validate_host-Targets :
      (allowed_hosts : List String) (host : String)
      → validate_host urlparse ip_address message resolve allowed_hosts host ≡ accepted
      → Targets allowed_hosts host
  unfolding validate_host by_name
  validate_host-Targets allowed_hosts host h = elim (Bool-cases (contains allowed_hosts host)) [
    | inl e ↦ inl e
    | inr e ↦ elim (Option-cases (ip_address host)) [
      | inl p ↦ inr (inr (p, check_resolved-IsResolved (resolve host) (ground arith)))
      | inr (a, p) ↦ inr (inl (a, p, ground arith))
    ]
  ]

  -- A URL that is accepted is empty, or its scheme is http or https and its host is allowed by name, is
  -- a literal address outside the private networks, or resolves to addresses that are all outside them.
  pub validate_webhook_url_sound :
      (url : String) (allowed_hosts : List String)
      → validate_webhook_url urlparse ip_address message resolve url allowed_hosts ≡ accepted
      → (str_eq url "" ≡ true)
        ⊎ ((host : String) × (contains ("http" ∷ "https" ∷ []) (urlparse url).0 ≡ true)
            × ((urlparse url).1 ≡ some host)
            × Targets allowed_hosts host)
  unfolding validate_webhook_url with_hostname
  validate_webhook_url_sound url allowed_hosts h = elim (Bool-cases (str_eq url "")) [
    | inl e ↦ inl e
    | inr e ↦ elim (Option-cases (urlparse url).1) [
      | inl p ↦ absurd (ground arith)
      | inr (host, p) ↦
          inr (host, ground arith, p, validate_host-Targets allowed_hosts host (ground arith))
    ]
  ]

  -- The bug: where the error of `ip_address` quotes its argument, a host name that has "private" in it is
  -- refused, whatever public addresses it resolves to.
  pub private_name_refused :
      ((host : String) → has host "private" ≡ true → has (message host) "private" ≡ true)
      → (allowed_hosts : List String) (host : String) → contains allowed_hosts host ≡ false
      → ip_address host ≡ none
      → has host "private" ≡ true
      → validate_host urlparse ip_address message resolve allowed_hosts host
        ≡ refused not_an_address
  unfolding validate_host by_name
  private_name_refused quotes allowed_hosts host out name bad = ground (arith, quotes host bad)

  -- The bug: every IPv4 address is accepted in its IPv6-mapped form, the private ones among them.
  pub mapped_address_accepted :
      (allowed_hosts : List String) (host : String) (a : ℕ)
      → a < 2 ^ 32
      → ip_address host ≡ some (v6 (65535 * 2 ^ 32 + a))
      → validate_host urlparse ip_address message resolve allowed_hosts host ≡ accepted
  unfolding validate_host is_private
  mapped_address_accepted allowed_hosts host a small literal = ground arith
