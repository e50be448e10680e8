-- ===== src/Tests/Configuring.antt =====
-- Configurations, at concrete inputs.
use ollama_queue_proxy.Prelude.{
  ℕ, ◌≤◌, ◌≡◌, refl, true, false, String, Option, none, some, List, [], ◌∷◌, All, codes, codes_eq,
  str_eq, if◌then◌else◌,
}
use ollama_queue_proxy.Priority.{high, normal}
use ollama_queue_proxy.Scope.{inference}
use ollama_queue_proxy.Config.{ApiKeyConfig}
use ollama_queue_proxy.Config.Keys.{
  pos, KeyEntry, valid, refused, contradicts, is_blank, validate_key, validate_keys, strip,
}
use ollama_queue_proxy.Config.Sources.{SaidBy, Grants, validate_key_exact}
use ollama_queue_proxy.Config.Checks.{
  InjectionListenerConfig, Config, port_conflict, validate_v2_constraints,
}
use ollama_queue_proxy.Config.Constraints.{
  Distinct, IsClient, IsBound, validate_v2_constraints_exact,
}
use ollama_queue_proxy.Config.Env.{
  Codes, number, text, table, Table, empty, entry, find, coerce, path_named, Raw, flag, other_value,
}
use ollama_queue_proxy.Config.Overrides.{Apart, lookup_path}
use ollama_queue_proxy.Config.Load.{FileRead, missing, parsed, loaded, config_path, load_config}
use ollama_queue_proxy.Config.Load.Precedence.{file_table, load_config_overrides}
use ollama_queue_proxy.Tests.Data.{auth_config, worker_key}

-- One variable, and one file with a newline at its end.
abbrev environment : String → Option String
environment name = if str_eq name "ADMIN_KEY" then some "sk-admin" else none

abbrev read_text : String → Option String
read_text path = if str_eq path "/run/secrets/worker" then some " sk-worker " else none

abbrev worker_entry : KeyEntry
worker_entry = record {
  key = none;
  key_env = none;
  key_file = some "/run/secrets/worker";
  client_id = "worker";
  max_priority = normal;
  scope = none;
  management_flag = false;
  max_concurrent = pos 2;
}

abbrev admin_entry : KeyEntry
admin_entry = record {
  key = none;
  key_env = some "ADMIN_KEY";
  key_file = none;
  client_id = "admin";
  max_priority = high;
  scope = none;
  management_flag = true;
  max_concurrent = pos 0;
}

worker_valid : validate_key environment read_text worker_entry ≡ valid worker_key
unfolding validate_key is_blank strip
worker_valid = refl

admin_valid :
    validate_keys environment read_text (worker_entry ∷ admin_entry ∷ []) ≡ valid auth_config.keys
unfolding validate_keys validate_key is_blank strip
admin_valid = refl

flag_contradicts :
    validate_key environment read_text (record admin_entry { scope = some inference })
    ≡ refused contradicts
unfolding validate_key is_blank strip
flag_contradicts = refl

validate_key_exact_example :
    SaidBy environment read_text none none (some "/run/secrets/worker") worker_key.key
    × (is_blank worker_key.key ≡ false)
    × Grants environment read_text worker_entry worker_key.scope
    × (worker_entry.max_concurrent ≡ pos worker_key.max_concurrent)
    × (worker_key.client_id ≡ worker_entry.client_id)
    × (worker_key.max_priority ≡ worker_entry.max_priority)
validate_key_exact_example =
    (validate_key_exact environment read_text worker_entry worker_key).0 worker_valid

abbrev pub listener : ℕ → InjectionListenerConfig
listener port = record { listen_port = port; inject_as = "worker"; bind = "127.0.0.1" }

abbrev pub config_with : List InjectionListenerConfig → Config
config_with listeners = record {
  proxy = record { port = 11434; max_concurrent = 2 };
  auth = auth_config;
  client_injection = record { listeners = listeners; allow_public_injection = false };
}

abbrev pub two_listeners : Config
two_listeners = config_with (listener 11500 ∷ listener 11501 ∷ [])

pub constraints_hold : validate_v2_constraints two_listeners ≡ none
unfolding validate_v2_constraints
constraints_hold = refl

validate_v2_constraints_exact_example :
    Distinct (11434 ∷ 11500 ∷ 11501 ∷ [])
    × All
        (λ (l : InjectionListenerConfig). IsClient auth_config.keys l.inject_as)
        two_listeners.client_injection.listeners
    × All (λ (k : ApiKeyConfig). k.max_concurrent ≤ 2) auth_config.keys
    × All (IsBound false) two_listeners.client_injection.listeners
validate_v2_constraints_exact_example =
    (validate_v2_constraints_exact two_listeners).0 constraints_hold

port_taken :
    validate_v2_constraints (config_with (listener 11434 ∷ [])) ≡ some (port_conflict 11434)
unfolding validate_v2_constraints
port_taken = refl

-- `proxy: {port: 11434, host: "0.0.0.0"}`
abbrev file : Table
file =
    entry (codes "proxy")
      (table
        (entry (codes "port") (number 11434) (entry (codes "host") (text (codes "0.0.0.0")) empty)))
      empty

abbrev file_after : Table
file_after =
    entry (codes "proxy")
      (table
        (entry (codes "port") (number 8080) (entry (codes "host") (text (codes "0.0.0.0")) empty)))
      empty

abbrev home : Codes × Codes
home = (codes "HOME", codes "/root")

abbrev port_path : List Codes
port_path = codes "proxy" ∷ codes "port" ∷ []

port_named : path_named (codes "OQP_PROXY__PORT") ≡ some port_path
unfolding path_named
port_named = refl

abbrev port_variables : List (Codes × Codes)
port_variables = home ∷ (codes "OQP_PROXY__PORT", codes "8080") ∷ []

abbrev read_file : Codes → FileRead
read_file path = if codes_eq path (codes "./config.yml") then parsed (table file) else missing

abbrev port_of : Raw → Option ℕ
port_of raw = elim (lookup_path port_path raw) as (λ o. Option ℕ) [
  | none ↦ none
  | some r ↦ elim r as (λ r. Option ℕ) [
    | flag b ↦ none
    | number n ↦ some n
    | text s ↦ none
    | table t ↦ none
    | other_value i ↦ none
  ]
]

port_loaded : load_config (λ i. false) port_of read_file port_variables none ≡ loaded 8080
unfolding load_config lookup_path
port_loaded = refl

load_config_overrides_example :
    (raw : Raw) × (t : Table) × (read_file (config_path none port_variables) ≡ parsed raw)
    × (port_of (table t) ≡ some 8080)
    × (lookup_path port_path (table t) ≡ some (coerce (codes "8080")))
    × ((other : List Codes)
        → All (Apart other) port_variables
        → lookup_path other (table t) ≡ lookup_path other (table (file_table raw)))
load_config_overrides_example =
    load_config_overrides (λ i. false) port_of read_file (home ∷ []) [] (codes "OQP_PROXY__PORT")
      (codes "8080") (codes "proxy") (codes "port" ∷ []) none 8080 port_named tt port_loaded

other_kept :
    lookup_path (codes "proxy" ∷ codes "host" ∷ []) (table file_after)
    ≡ some (text (codes "0.0.0.0"))
unfolding lookup_path find
other_kept = refl
