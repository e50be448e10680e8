-- ===== src/Auth/Keys.antt =====
-- Which key a request is authenticated as.
use mathlib.Core.List.{Mem, mem-cons_self, mem-cons_of_mem}
use ollama_queue_proxy.Prelude.{
  ℕ, ◌≡◌, refl, subst, String, Bool, true, false, Option, none, some, List, [], ◌∷◌, All, Dict,
  insert, str_eq, eq_iff, Bool-cases, inl, inr, arith, ap, sym, ◌∙◌,
}
use ollama_queue_proxy.Http.{Request}
use ollama_queue_proxy.Config.{ApiKeyConfig, AuthConfig}
use ollama_queue_proxy.Auth.{
  AuthManager, Outcome, returns, raises_type_error, key, init, add_keys, compare_digest, lookup_in,
  lookup_key, provided_key, is_rate_limited, authenticate, client_ip, checked, admitted, accept,
  present,
}

-- An entry of the dictionary of keys: a configured key, under its own text.
abbrev IsEntry : List ApiKeyConfig → String × ApiKeyConfig → Type 0
IsEntry keys (k, cfg) = (cfg.key ≡ k) × Mem cfg keys

insert-IsEntry :
    (keys : List ApiKeyConfig) (cfg : ApiKeyConfig) (d : Dict ApiKeyConfig)
    → Mem cfg keys
    → All (IsEntry keys) d
    → All (IsEntry keys) (insert cfg.key cfg d)
insert-IsEntry keys cfg [] m h = ((refl, m), tt)
insert-IsEntry keys cfg ((j, w) ∷ d) m h = elim (Bool-cases (str_eq j cfg.key)) [
  | inl e ↦ rw e ((sym ((eq_iff j cfg.key).0 e), m), h.1)
  | inr e ↦ rw e (h.0, insert-IsEntry keys cfg d m h.1)
]

All-weaken :
    (keys : List ApiKeyConfig) (k : ApiKeyConfig) (d : Dict ApiKeyConfig)
    → All (IsEntry keys) d
    → All (IsEntry (k ∷ keys)) d
All-weaken keys k [] h = tt
All-weaken keys k (e ∷ d) h = ((h.0.0, mem-cons_of_mem _ h.0.1), All-weaken keys k d h.1)

add_keys-IsEntry :
    (keys ks : List ApiKeyConfig) (d : Dict ApiKeyConfig)
    → ((k : ApiKeyConfig) → Mem k ks → Mem k keys)
    → All (IsEntry keys) d
    → All (IsEntry keys) (add_keys d ks)
unfolding add_keys
add_keys-IsEntry keys [] d sub h = h
add_keys-IsEntry keys (k ∷ ks) d sub h =
    add_keys-IsEntry keys ks (insert k.key k d) (λ x m. sub x (mem-cons_of_mem k m))
      (insert-IsEntry keys k d (sub k mem-cons_self) h)

lookup_in_sound :
    (keys : List ApiKeyConfig) (d : Dict ApiKeyConfig) (provided : String) (cfg : ApiKeyConfig)
    → All (IsEntry keys) d
    → lookup_in d provided ≡ returns (some cfg)
    → (provided ≡ cfg.key) × Mem cfg keys
unfolding lookup_in compare_digest
lookup_in_sound keys [] provided cfg h e = cc
lookup_in_sound keys ((k, c) ∷ d) provided cfg h e = ground (
  arith,
  eq_iff k provided,
  h.0.0,
  λ (p : c ≡ cfg). subst (λ x. Mem x keys) p h.0.1,
  lookup_in_sound keys d provided cfg h.1,
)

accept-key :
    (now : ℕ) (r : Request) (found : Outcome (Option ApiKeyConfig)) (m : AuthManager)
    (cfg : ApiKeyConfig)
    → (accept now r found m).0 ≡ returns (key cfg)
    → found ≡ returns (some cfg)
unfolding accept
accept-key now r (returns (some c)) m cfg e = ground arith
accept-key now r (returns none) m cfg e = cc
accept-key now r raises_type_error m cfg e = cc

present-key :
    (now : ℕ) (r : Request) (provided : Option String) (m : AuthManager) (cfg : ApiKeyConfig)
    → (present now r provided m).0 ≡ returns (key cfg)
    → (p : String) × (provided ≡ some p) × (lookup_key m p ≡ returns (some cfg))
unfolding present
present-key now r none m cfg e = cc
present-key now r (some p) m cfg e = (p, refl, accept-key now r (lookup_key m p) m cfg e)

lookup_key-pruned :
    (now : ℕ) (ip : String) (m : AuthManager) (p : String)
    → lookup_key (is_rate_limited now ip m).1 p ≡ lookup_key m p
unfolding lookup_key is_rate_limited
lookup_key-pruned now ip m p = refl

checked-key :
    (now : ℕ) (r : Request) (limited : Bool) (m : AuthManager) (cfg : ApiKeyConfig)
    → (checked now r limited m).0 ≡ returns (key cfg)
    → (p : String) × (provided_key r ≡ some p) × (lookup_key m p ≡ returns (some cfg))
unfolding checked
checked-key now r true m cfg e = cc
checked-key now r false m cfg e = present-key now r (provided_key r) m cfg e

admitted-key :
    (now : ℕ) (r : Request) (enabled : Bool) (m : AuthManager) (cfg : ApiKeyConfig)
    → (admitted now r enabled m).0 ≡ returns (key cfg)
    → (p : String) × (provided_key r ≡ some p) × (lookup_key m p ≡ returns (some cfg))
unfolding admitted
admitted-key now r false m cfg e = cc
admitted-key now r true m cfg e =
    let (p, given, found) =
      checked-key now r (is_rate_limited now (client_ip r) m).0
        (is_rate_limited now (client_ip r) m).1 cfg e in
    (p, given, sym (lookup_key-pruned now (client_ip r) m p) ∙ found)

-- A request that is authenticated as a key presents the text of that key as its Bearer token, and
-- the key is one of those configured, whatever attempts failed before.
pub authenticate_sound :
    (config : AuthConfig) (failures : Dict (List ℕ)) (now : ℕ) (r : Request) (cfg : ApiKeyConfig)
    → (authenticate now r (record (init config) { failures = failures })).0 ≡ returns (key cfg)
    → (provided_key r ≡ some cfg.key) × Mem cfg config.keys
unfolding authenticate lookup_key init
authenticate_sound config failures now r cfg e =
    let (p, given, found) = admitted-key now r config.enabled _ cfg e in
    let (same, member) =
      lookup_in_sound config.keys (add_keys [] config.keys) p cfg
        (add_keys-IsEntry config.keys config.keys [] (λ k m. m) tt) found in
    (given ∙ ap some same, member)
