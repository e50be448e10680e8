-- ===== src/Config/Checks.antt =====
-- The constraints between sections: `validate_v2_constraints` of src/ollama_queue_proxy/config.py, on
-- fields that their own validators have accepted.
use ollama_queue_proxy.Prelude.{
  ℕ, String, Bool, true, false, not, ◌&&◌, ◌||◌, Option, none, some, List, [], ◌∷◌, contains, any,
  ltb, leb, ◌==◌, if◌then◌else◌,
}
use ollama_queue_proxy.Config.{ApiKeyConfig, AuthConfig}
use ollama_queue_proxy.Config.Keys.{ℤ, pos, negsuc}

pub record InjectionListenerConfig : Type 0 where
  pub listen_port : ℕ
  pub inject_as : String
  pub bind : String

pub record ClientInjectionConfig : Type 0 where
  pub listeners : List InjectionListenerConfig
  pub allow_public_injection : Bool

-- `port` and `max_concurrent` of the section.
pub record ProxyConfig : Type 0 where
  pub port : ℕ
  pub max_concurrent : ℕ

-- The sections that the constraints read.
pub record Config : Type 0 where
  pub proxy : ProxyConfig
  pub auth : AuthConfig
  pub client_injection : ClientInjectionConfig

-- The field validators on integers: weights, intervals and refresh times are positive, ports lie in
-- their ranges.
abbrev pub in_range : ℕ → ℕ → ℤ → Option ℕ
in_range lo hi (negsuc n) = none
in_range lo hi (pos n) = if leb lo n && leb n hi then some n else none

unfoldable pub positive : ℤ → Option ℕ
positive (negsuc n) = none
positive (pos n) = if ltb 0 n then some n else none

unfoldable pub valid_port : ℤ → Option ℕ
valid_port = in_range 1 65535

unfoldable pub valid_listen_port : ℤ → Option ℕ
valid_listen_port = in_range 1024 65535

-- `keys_required_when_enabled`
unfoldable pub keys_required_when_enabled : AuthConfig → Bool
keys_required_when_enabled a = elim a.keys [ [] ↦ not a.enabled | k ∷ ks ↦ true ]

-- What ends the process with "FATAL".
pub data Fatal : Type 0 where
  port_conflict public_bind : ℕ → Fatal
  unknown_client exceeds_cap : String → Fatal

pub data Warning : Type 0 where
  public_without_auth non_loopback : Warning

abbrev pub seen_port : ℕ → List ℕ → Bool
seen_port p [] = false
seen_port p (q ∷ qs) = p == q || seen_port p qs

-- The loop of `_validate_injection_ports`, with the ports seen so far.
unfoldable pub injection_ports : List ℕ → List InjectionListenerConfig → Option Fatal
injection_ports seen [] = none
injection_ports seen (l ∷ ls) =
    let later = injection_ports (l.listen_port ∷ seen) ls in
    if seen_port l.listen_port seen then some (port_conflict l.listen_port) else later

abbrev pub client_ids : List ApiKeyConfig → List String
client_ids [] = []
client_ids (k ∷ ks) = k.client_id ∷ client_ids ks

unfoldable pub inject_as_refs : List String → List InjectionListenerConfig → Option Fatal
inject_as_refs known_ids [] = none
inject_as_refs known_ids (l ∷ ls) =
    let later = inject_as_refs known_ids ls in
    if contains known_ids l.inject_as then later else some (unknown_client l.inject_as)

unfoldable pub client_max_concurrent : ℕ → List ApiKeyConfig → Option Fatal
client_max_concurrent global_cap [] = none
client_max_concurrent global_cap (k ∷ ks) =
    let later = client_max_concurrent global_cap ks in
    if ltb global_cap k.max_concurrent then some (exceeds_cap k.client_id) else later

abbrev pub loopback : List String
loopback = "127.0.0.1" ∷ "localhost" ∷ "::1" ∷ []

unfoldable pub public_injection_bind : Bool → List InjectionListenerConfig → Option Fatal
public_injection_bind allowed [] = none
public_injection_bind allowed (l ∷ ls) =
    let later = public_injection_bind allowed ls in
    if contains loopback l.bind
    then later
    else if not allowed
    then some (public_bind l.listen_port)
    else later

-- The first constraint that ends the process stands.
abbrev pub or_else : Option Fatal → Option Fatal → Option Fatal
or_else none later = later
or_else (some e) later = some e

-- `validate_v2_constraints`: `none` where the configuration is accepted.
unfoldable pub validate_v2_constraints : Config → Option Fatal
unfolding injection_ports inject_as_refs client_max_concurrent public_injection_bind
validate_v2_constraints c =
    let listeners = c.client_injection.listeners in
    or_else (injection_ports (c.proxy.port ∷ []) listeners) (
      or_else (inject_as_refs (client_ids c.auth.keys) listeners) (
        or_else (client_max_concurrent c.proxy.max_concurrent c.auth.keys)
          (public_injection_bind c.client_injection.allow_public_injection listeners)))

abbrev pub is_public : InjectionListenerConfig → Bool
is_public l = not (contains loopback l.bind)

-- `_warn_public_injection_no_auth`
unfoldable pub warn_public_injection_no_auth : Config → Option Warning
warn_public_injection_no_auth c =
    if c.client_injection.allow_public_injection && not c.auth.enabled
    then some public_without_auth
    else if any is_public c.client_injection.listeners
    then some non_loopback
    else none
