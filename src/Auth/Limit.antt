-- ===== src/Auth/Limit.antt =====
-- The bound on guesses: how many wrong credentials one address can have checked in one window.
use ollama_queue_proxy.Prelude.{
  ℕ, suc, ◌+◌, ◌-◌, ◌*◌, ◌≤◌, ◌<◌, ◌≡◌, ◌≢◌, refl, ap, String, Bool, true, false, Option, none,
  some, List, [], ◌∷◌, ◌++◌, ◌∙◌, Dict, keep, length, entries, insert, lookup-insert, ltb, leb,
  ◌==◌, str_eq, eq_iff, eq_refl, arith,
}
use ollama_queue_proxy.Http.{Request}
use ollama_queue_proxy.Clock.{second}
use ollama_queue_proxy.Config.{ApiKeyConfig}
use ollama_queue_proxy.Auth.{
  AuthManager, Outcome, returns, raises_type_error, Verdict, denied, lookup_key, lookup_in,
  provided_key, recent, is_rate_limited, record_failure, client_ip, accept, present, checked,
  admitted,
}

-- The attempts of `ip` that were recorded at `start` or later.
abbrev since : ℕ → List ℕ → ℕ
since start xs = length (keep (λ t. leb start t) xs)

abbrev pub counted : ℕ → String → AuthManager → ℕ
counted start ip m = since start (entries ip m.failures)

since-prune :
    (start now w : ℕ) (xs : List ℕ)
    → start ≤ now
    → now < start + w
    → (since start (keep (λ t. ltb (now - t) w) xs) ≡ since start xs)
      × (since start xs ≤ length (keep (λ t. ltb (now - t) w) xs))
since-prune start now w [] a b = (refl, omega arith)
since-prune start now w (x ∷ xs) a b = ground (arith, since-prune start now w xs a b)

since-append :
    (start now : ℕ) (xs : List ℕ)
    → start ≤ now
    → since start (xs ++ now ∷ []) ≡ suc (since start xs)
since-append start now [] a = ground arith
since-append start now (x ∷ xs) a = ground (arith, since-append start now xs a)

entries-insert_self :
    (ip : String) (xs : List ℕ) (d : Dict (List ℕ)) → entries ip (insert ip xs d) ≡ xs
entries-insert_self ip xs d = ground (arith, lookup-insert ip ip xs d, eq_refl ip)

entries-insert_ne :
    (ip other : String) (xs : List ℕ) (d : Dict (List ℕ))
    → str_eq other ip ≡ false
    → entries ip (insert other xs d) ≡ entries ip d
entries-insert_ne ip other xs d h = ground (arith, lookup-insert other ip xs d)

unfoldable pub is_401 : Outcome Verdict → Bool
is_401 (returns (denied e)) = e.status_code == 401
is_401 _ = false

abbrev finds_none : Outcome (Option ApiKeyConfig) → Bool
finds_none (returns (some cfg)) = false
finds_none (returns none) = true
finds_none raises_type_error = true

-- The request presents no key that would be accepted.
abbrev pub wrong : Dict ApiKeyConfig → Request → Bool
wrong keys r = elim (provided_key r) [ none ↦ true | some p ↦ finds_none (lookup_in keys p) ]

-- What one request does to the attempts of `ip` that count: each 401 adds one, below the limit.
pub record Counts (start : ℕ) (ip : String) (m : AuthManager) (a : Outcome Verdict × AuthManager)
    : Type 0 where
  pub refused :
      is_401 a.0 ≡ true
      → (counted start ip m < m.config.rate_limit.max_failures)
        × (counted start ip a.1 ≡ suc (counted start ip m))
  pub other : is_401 a.0 ≡ false → counted start ip a.1 ≡ counted start ip m
  pub same_keys : a.1.key_map ≡ m.key_map
  pub same_config : a.1.config ≡ m.config

record-counted :
    (start now : ℕ) (ip : String) (m : AuthManager)
    → start ≤ now
    → counted start ip (record_failure now ip m) ≡ suc (counted start ip m)
unfolding record_failure
record-counted start now ip m a =
    ap (since start) (entries-insert_self ip (entries ip m.failures ++ now ∷ []) m.failures)
    ∙ since-append start now (entries ip m.failures) a

accept-Counts :
    (start now : ℕ) (r : Request) (found : Outcome (Option ApiKeyConfig)) (m : AuthManager)
    → start ≤ now
    → counted start (client_ip r) m < m.config.rate_limit.max_failures
    → finds_none found ≡ true
    → Counts start (client_ip r) m (accept now r found m)
unfolding accept is_401 record_failure
accept-Counts start now r (returns (some cfg)) m a below w = absurd (ground arith)
accept-Counts start now r (returns none) m a below w = record {
  refused = λ e. (below, record-counted start now (client_ip r) m a);
  other = λ e. cc;
  same_keys = refl;
  same_config = refl;
}
accept-Counts start now r raises_type_error m a below w = record {
  refused = λ e. cc;
  other = λ e. refl;
  same_keys = refl;
  same_config = refl;
}

present-Counts :
    (start now : ℕ) (r : Request) (provided : Option String) (m : AuthManager)
    → start ≤ now
    → counted start (client_ip r) m < m.config.rate_limit.max_failures
    → (elim provided [ none ↦ true | some p ↦ finds_none (lookup_in m.key_map p) ]) ≡ true
    → Counts start (client_ip r) m (present now r provided m)
unfolding present accept is_401 record_failure lookup_key
present-Counts start now r none m a below w = record {
  refused = λ e. (below, record-counted start now (client_ip r) m a);
  other = λ e. cc;
  same_keys = refl;
  same_config = refl;
}
present-Counts start now r (some p) m a below w =
    accept-Counts start now r (lookup_key m p) m a below w

pruned-counted :
    (start now : ℕ) (ip : String) (m : AuthManager)
    → start ≤ now
    → now < start + m.config.rate_limit.window_seconds * second
    → (counted start ip (is_rate_limited now ip m).1 ≡ counted start ip m)
      × (counted start ip m ≤ length (recent m now ip))
unfolding is_rate_limited recent
pruned-counted start now ip m a inside =
    let (same, less) =
      since-prune start now (m.config.rate_limit.window_seconds * second) (entries ip m.failures) a
        inside in
    (ap (since start) (entries-insert_self ip _ m.failures) ∙ same, less)

checked-Counts :
    (start now : ℕ) (r : Request) (limited : Bool) (m : AuthManager)
    → start ≤ now
    → (limited ≡ false → counted start (client_ip r) m < m.config.rate_limit.max_failures)
    → wrong m.key_map r ≡ true
    → Counts start (client_ip r) m (checked now r limited m)
unfolding checked is_401
checked-Counts start now r true m a below w = record {
  refused = λ e. cc;
  other = λ e. refl;
  same_keys = refl;
  same_config = refl;
}
checked-Counts start now r false m a below w =
    present-Counts start now r (provided_key r) m a (below refl) w

pub admitted-Counts :
    (start now : ℕ) (r : Request) (enabled : Bool) (m : AuthManager)
    → start ≤ now
    → now < start + m.config.rate_limit.window_seconds * second
    → wrong m.key_map r ≡ true
    → Counts start (client_ip r) m (admitted now r enabled m)
unfolding admitted is_401 is_rate_limited lookup_key
admitted-Counts start now r false m a inside w = record {
  refused = λ e. cc;
  other = λ e. refl;
  same_keys = refl;
  same_config = refl;
}
admitted-Counts start now r true m a inside w =
    let ip = client_ip r in
    let (same, less) = pruned-counted start now ip m a inside in
    let c =
      checked-Counts start now r (is_rate_limited now ip m).0 (is_rate_limited now ip m).1 a
        (λ e. ground (arith, same, less)) w in
    record {
      refused = λ e. (omega (arith, same, (c.refused e).0), (c.refused e).1 ∙ ap suc same);
      other = λ e. c.other e ∙ same;
      same_keys = c.same_keys;
      same_config = c.same_config;
    }

-- A request from another address.
elsewhere-counted :
    (start now : ℕ) (ip other : String) (xs : List ℕ) (d : Dict (List ℕ))
    → other ≢ ip
    → since start (entries ip (insert other xs d)) ≡ since start (entries ip d)
elsewhere-counted start now ip other xs d ne =
    ap (since start) (entries-insert_ne ip other xs d (ground (arith, eq_iff other ip)))

pub record Elsewhere (start : ℕ) (ip : String) (m : AuthManager) (a : AuthManager) : Type 0 where
  pub same_count : counted start ip a ≡ counted start ip m
  pub same_keys : a.key_map ≡ m.key_map
  pub same_config : a.config ≡ m.config

accept-Elsewhere :
    (start now : ℕ) (ip : String) (r : Request) (found : Outcome (Option ApiKeyConfig))
    (m : AuthManager)
    → client_ip r ≢ ip
    → Elsewhere start ip m (accept now r found m).1
unfolding accept record_failure
accept-Elsewhere start now ip r (returns (some cfg)) m ne = record {
  same_count = elsewhere-counted start now ip (client_ip r) _ m.failures ne;
  same_keys = refl;
  same_config = refl;
}
accept-Elsewhere start now ip r (returns none) m ne = record {
  same_count = elsewhere-counted start now ip (client_ip r) _ m.failures ne;
  same_keys = refl;
  same_config = refl;
}
accept-Elsewhere start now ip r raises_type_error m ne = record {
  same_count = refl;
  same_keys = refl;
  same_config = refl;
}

present-Elsewhere :
    (start now : ℕ) (ip : String) (r : Request) (provided : Option String) (m : AuthManager)
    → client_ip r ≢ ip
    → Elsewhere start ip m (present now r provided m).1
unfolding present record_failure
present-Elsewhere start now ip r none m ne = record {
  same_count = elsewhere-counted start now ip (client_ip r) _ m.failures ne;
  same_keys = refl;
  same_config = refl;
}
present-Elsewhere start now ip r (some p) m ne =
    accept-Elsewhere start now ip r (lookup_key m p) m ne

checked-Elsewhere :
    (start now : ℕ) (ip : String) (r : Request) (limited : Bool) (m : AuthManager)
    → client_ip r ≢ ip
    → Elsewhere start ip m (checked now r limited m).1
unfolding checked
checked-Elsewhere start now ip r true m ne = record {
  same_count = refl;
  same_keys = refl;
  same_config = refl;
}
checked-Elsewhere start now ip r false m ne = present-Elsewhere start now ip r (provided_key r) m ne

pub admitted-Elsewhere :
    (start now : ℕ) (ip : String) (r : Request) (enabled : Bool) (m : AuthManager)
    → client_ip r ≢ ip
    → Elsewhere start ip m (admitted now r enabled m).1
unfolding admitted is_rate_limited
admitted-Elsewhere start now ip r false m ne = record {
  same_count = refl;
  same_keys = refl;
  same_config = refl;
}
admitted-Elsewhere start now ip r true m ne =
    let c =
      checked-Elsewhere start now ip r (is_rate_limited now (client_ip r) m).0
        (is_rate_limited now (client_ip r) m).1 ne in
    record {
      same_count = c.same_count ∙ elsewhere-counted start now ip (client_ip r) _ m.failures ne;
      same_keys = c.same_keys;
      same_config = c.same_config;
    }
