-- ===== src/Startup/Servers.antt =====
-- The servers of a configuration that is accepted.
use ollama_queue_proxy.Prelude.{
  ℕ, ◌≡◌, ◌⊎◌, inl, inr, refl, sym, ◌∙◌, String, none, some, List, [], ◌∷◌, All, Dict, insert,
  lookup, lookup-insert, str_eq, eq_iff, arith, Bool-cases,
}
use ollama_queue_proxy.Config.{ApiKeyConfig}
use ollama_queue_proxy.Config.Checks.{InjectionListenerConfig, Config, validate_v2_constraints}
use ollama_queue_proxy.Config.Constraints.{ports, Distinct, IsClient, validate_v2_constraints_exact}
use ollama_queue_proxy.Startup.{Server, key_map, injection_servers, all_servers}

abbrev pub HasKey : List ApiKeyConfig → ApiKeyConfig → Type 0
HasKey [] k = ⊥
HasKey (x ∷ xs) k = (x ≡ k) ⊎ HasKey xs k

-- That key of the configuration is there, under that name.
abbrev pub IsKeyOf : List ApiKeyConfig → String → ApiKeyConfig → Type 0
IsKeyOf keys name k = (k.client_id ≡ name) × HasKey keys k

-- What the loop makes of the keys, for one name.
abbrev Mapped : List ApiKeyConfig → Dict ApiKeyConfig → String → Type 0
Mapped keys d name =
    ((k : ApiKeyConfig) × (lookup name (key_map d keys) ≡ some k) × IsKeyOf keys name k)
    ⊎ ((lookup name (key_map d keys) ≡ lookup name d) × ¬ (IsClient keys name))

key_map-Mapped :
    (keys : List ApiKeyConfig) (d : Dict ApiKeyConfig) (name : String) → Mapped keys d name
unfolding key_map
key_map-Mapped [] d name = inr (refl, λ h. h)
key_map-Mapped (k ∷ ks) d name = elim (key_map-Mapped ks (insert k.client_id k d) name) [
  | inl (found, e, named) ↦ inl (found, e, (named.0, inr named.1))
  | inr (e, absent) ↦ elim (Bool-cases (str_eq k.client_id name)) [
    | inl hit ↦ inl (
      k,
      e ∙ ground (arith, lookup-insert k.client_id name k d),
      ((eq_iff k.client_id name).0 hit, inl refl),
    )
    | inr miss ↦ inr (
      e ∙ ground (arith, lookup-insert k.client_id name k d),
      elim [ inl p ↦ cc (sym ((eq_iff k.client_id name).1 p) ∙ miss) | inr later ↦ absent later ],
    )
  ]
]

key_map-IsKeyOf :
    (keys : List ApiKeyConfig) (name : String)
    → IsClient keys name
    → (k : ApiKeyConfig) × (lookup name (key_map [] keys) ≡ some k) × IsKeyOf keys name k
key_map-IsKeyOf keys name h = elim (key_map-Mapped keys [] name) [
  | inl found ↦ found
  | inr (e, absent) ↦ absurd (absent h)
]

-- A server that injects a client for each listener, in order, at its address, with a key of that client.
abbrev pub Serve : List ApiKeyConfig → List InjectionListenerConfig → List Server → Type 0
Serve keys [] [] = Unit
Serve keys [] (s ∷ ss) = ⊥
Serve keys (l ∷ ls) [] = ⊥
Serve keys (l ∷ ls) (s ∷ ss) =
    (s.host ≡ l.bind)
    × (s.port ≡ l.listen_port)
    × ((k : ApiKeyConfig) × (s.injects ≡ some (l.inject_as, k)) × IsKeyOf keys l.inject_as k)
    × Serve keys ls ss

abbrev pub server_ports : List Server → List ℕ
server_ports [] = []
server_ports (s ∷ ss) = s.port ∷ server_ports ss

injection_servers_total :
    (keys : List ApiKeyConfig) (ls : List InjectionListenerConfig)
    → All (λ (l : InjectionListenerConfig). IsClient keys l.inject_as) ls
    → (servers : List Server) × (injection_servers (key_map [] keys) ls ≡ some servers)
      × (server_ports servers ≡ ports ls)
      × Serve keys ls servers
unfolding injection_servers
injection_servers_total keys [] h = ([], refl, refl, tt)
injection_servers_total keys (l ∷ ls) (h, hs) =
    let (k, found, named) = key_map-IsKeyOf keys l.inject_as h in
    let (rest, e, same, served) = injection_servers_total keys ls hs in
    (
      record { host = l.bind; port = l.listen_port; injects = some (l.inject_as, k) } ∷ rest,
      ground (arith, found, e),
      ground (arith, same),
      (refl, refl, (k, refl, named), served),
    )

-- Where the configuration is accepted, `run` makes all its servers and no listener's client is missing
-- among the keys: first the main server, at its address, that injects nothing, then a server for each
-- listener in order, at the listener's address, that injects the listener's client with a key of the
-- configuration that has this `client_id`; and no two servers have the same port.
pub all_servers_total :
    (host : String) (c : Config)
    → validate_v2_constraints c ≡ none
    → (main : Server) × (servers : List Server) × (all_servers host c ≡ some (main ∷ servers))
      × (main.host ≡ host)
      × (main.port ≡ c.proxy.port)
      × (main.injects ≡ none)
      × Serve c.auth.keys c.client_injection.listeners servers
      × Distinct (server_ports (main ∷ servers))
unfolding all_servers
all_servers_total host c h =
    let (apart, clients, caps, binds) = (validate_v2_constraints_exact c).0 h in
    let (servers, e, same, served) =
      injection_servers_total c.auth.keys c.client_injection.listeners clients in
    (
      record { host = host; port = c.proxy.port; injects = none },
      servers,
      ground (arith, e),
      refl,
      refl,
      refl,
      served,
      rw same apart,
    )
