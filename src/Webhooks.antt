-- ===== src/Webhooks.antt =====
-- src/ollama_queue_proxy/webhooks.py: which URL is accepted for deliveries, and which events are
-- delivered.
pub mod Targets
use ollama_queue_proxy.Prelude.{
  ℕ, ◌+◌, ◌*◌, ◌^◌, String, Bool, true, false, not, ◌&&◌, ◌||◌, Option, none, some, List, [], ◌∷◌,
  contains, any, leb, ltb, str_eq, if◌then◌else◌,
}
use ollama_queue_proxy.Json.{Json, string, object, Members, no_member, member}
use ollama_queue_proxy.Proxy.Dispatch.{has}

-- An address of Python's `ipaddress`, by its version and its number.
pub data Address : Type 0 where
  v4 v6 : ℕ → Address

-- A network, by its first address and the number of its addresses.
pub record Network : Type 0 where
  pub first : Address
  pub size : ℕ

-- `addr in net`: an address of the other version is in no network.
abbrev pub in_network : Address → Network → Bool
in_network (v4 a) net = elim net.first [ v4 n ↦ leb n a && ltb a (n + net.size) | v6 n ↦ false ]
in_network (v6 a) net = elim net.first [ v4 n ↦ false | v6 n ↦ leb n a && ltb a (n + net.size) ]

abbrev net4 : ℕ → ℕ → ℕ → ℕ → ℕ → Network
net4 a b c d host_bits = record {
  first = v4 (((a * 256 + b) * 256 + c) * 256 + d);
  size = 2 ^ host_bits;
}

-- `_PRIVATE_NETWORKS`
abbrev pub private_networks : List Network
private_networks =
    net4 10 0 0 0 24
    ∷ net4 172 16 0 0 20
    ∷ net4 192 168 0 0 16
    ∷ net4 127 0 0 0 24
    ∷ net4 169 254 0 0 16
    ∷ record { first = v6 1; size = 1 }
    ∷ record { first = v6 (252 * 2 ^ 120); size = 2 ^ 121 }
    ∷ record { first = v6 (1018 * 2 ^ 118); size = 2 ^ 118 }
    ∷ []

-- `_check_private` raises.
unfoldable pub is_private : Address → Bool
is_private a = any (in_network a) private_networks

-- Why a URL is refused: the ValueError that the caller sees.
pub data Refusal : Type 0 where
  bad_scheme no_hostname private_address not_an_address unresolved no_addresses : Refusal

pub data Verdict : Type 0 where
  accepted : Verdict
  refused : Refusal → Verdict

-- `getaddrinfo`: an error, or addresses.
pub data Resolved : Type 0 where
  unknown_host : Resolved
  resolves_to : List Address → Resolved

unfoldable pub check_all : List Address → Verdict
unfolding is_private
check_all [] = accepted
check_all (a ∷ more) =
    let rest = check_all more in if is_private a then refused private_address else rest

unfoldable pub check_resolved : Resolved → Verdict
unfolding check_all
check_resolved unknown_host = refused unresolved
check_resolved (resolves_to []) = refused no_addresses
check_resolved (resolves_to (a ∷ more)) = check_all (a ∷ more)

-- `urlparse` gives the scheme and the hostname; `ip_address` reads a literal and otherwise raises a
-- ValueError with the text `message`; `resolve` is `getaddrinfo`.
module _ (urlparse : String → String × Option String) (ip_address : String → Option Address)
    (message : String → String) (resolve : String → Resolved) where
  -- Past the literal: the ValueError of `ip_address` goes on where its text has one of the two words.
  unfoldable pub by_name : String → Verdict
  unfolding check_resolved
  by_name host =
      if has (message host) "private" || has (message host) "SSRF"
      then refused not_an_address
      else check_resolved (resolve host)

  unfoldable pub validate_host : List String → String → Verdict
  unfolding by_name is_private
  validate_host allowed_hosts host =
      if contains allowed_hosts host then accepted else elim (ip_address host) [
        | some a ↦ if is_private a then refused private_address else accepted
        | none ↦ by_name host
      ]

  unfoldable pub with_hostname : List String → Option String → Verdict
  unfolding validate_host
  with_hostname allowed_hosts none = refused no_hostname
  with_hostname allowed_hosts (some host) =
      if str_eq host "" then refused no_hostname else validate_host allowed_hosts host

  unfoldable pub validate_webhook_url : String → List String → Verdict
  unfolding with_hostname
  validate_webhook_url url allowed_hosts =
      let (scheme, hostname) = urlparse url in
      if str_eq url ""
      then accepted
      else if not (contains ("http" ∷ "https" ∷ []) scheme)
      then refused bad_scheme
      else with_hostname allowed_hosts hostname

pub record WebhookConfig : Type 0 where
  pub enabled : Bool
  pub url : String
  pub events : List String
  pub allowed_hosts : List String

-- `fire` starts a delivery.
unfoldable pub fires : WebhookConfig → String → Bool
fires config event = config.enabled && contains config.events event

unfoldable pub append_members : Members → Members → Members
append_members no_member rest = rest
append_members (member k v more) rest = member k v (append_members more rest)

-- The payload of `_deliver`, whose keywords are none of its own three names.
unfoldable pub payload : String → String → Option String → Members → Members
unfolding append_members
payload event timestamp tier kwargs =
    let tail : Members = elim tier [
      | none ↦ kwargs
      | some t ↦ if str_eq t "" then kwargs else member "tier" (string t) kwargs
    ] in
    member "event" (string event) (member "timestamp" (string timestamp) tail)

-- The request that a delivery makes; its outcome is only logged.
pub record Post : Type 0 where
  pub url : String
  pub json : Json

-- `fire`, with the task that it starts.
unfoldable pub fire : WebhookConfig → String → String → Option String → Members → Option Post
unfolding fires payload
fire config event timestamp tier kwargs =
    if fires config event
    then some (record { url = config.url; json = object (payload event timestamp tier kwargs) })
    else none
