-- ===== src/Status/Accesses.antt =====
-- The counters of the cache, over any sequence of requests.
use ollama_queue_proxy.Prelude.{
  ℕ, ◌+◌, ◌≡◌, ◌⊎◌, inl, inr, refl, sym, subst, String, not, ◌||◌, Option, none, some, List, [],
  ◌∷◌, Dict, All, insert, lookup, str_eq, ltb, length, arith, Bool-cases, Option-cases,
}
use ollama_queue_proxy.Json.{Json, Members}
use ollama_queue_proxy.Cache.{
  EmbeddingCache, Fetched, found, missing, get_fails, Stored, stored, set_fails, metric_key, count,
  fetch, get, set, after_set, build_key, log_error,
}

-- The label of a counter is one that the cache makes.
abbrev pub IsCounted : String × ℕ → Type 0
IsCounted x =
    (client : Option String) × (model : String) × (endpoint : String) × (x.0
      ≡ metric_key client model endpoint)

-- Every label of the counters is one that the cache makes.
abbrev pub Countable : EmbeddingCache → Type 0
Countable c = All IsCounted c.hits × All IsCounted c.misses

insert-IsCounted :
    (k : String) (n : ℕ) (d : Dict ℕ)
    → IsCounted (k, n)
    → All IsCounted d
    → All IsCounted (insert k n d)
insert-IsCounted k n [] h a = (h, tt)
insert-IsCounted k n ((j, m) ∷ d) h a = elim (Bool-cases (str_eq j k)) [
  | inl e ↦ rw e (a.0, a.1)
  | inr e ↦ rw e (a.0, insert-IsCounted k n d h a.1)
]

count-IsCounted :
    (client : Option String) (model endpoint : String) (d : Dict ℕ)
    → All IsCounted d
    → All IsCounted (count (metric_key client model endpoint) d)
unfolding count
count-IsCounted client model endpoint d a =
    let key = metric_key client model endpoint in
    insert-IsCounted key (elim (lookup key d) [ none ↦ 1 | some n ↦ n + 1 ]) d
      (client, model, endpoint, refl) a

log_error-Countable :
    (now : ℕ) (kind : String) (c : EmbeddingCache) → Countable c → Countable (log_error now kind c)
unfolding log_error
log_error-Countable now kind c a =
    let hits_kept : (log_error now kind c).hits ≡ c.hits = ground arith in
    let misses_kept : (log_error now kind c).misses ≡ c.misses = ground arith in
    (subst (All IsCounted) (sym hits_kept) a.0, subst (All IsCounted) (sym misses_kept) a.1)

-- What other code asks of the cache.
pub data Access : Type 0 where
  gets : ℕ → String → Members → String → Option String → Access
  sets : ℕ → String → Members → String → List ℕ → Access

module _ {Store : Type 0} (utf8 : String → List ℕ) (canonical : Json → List ℕ)
    (sha256 : List ℕ → String) (backend_get : String → Store → Fetched)
    (backend_setex : String → ℕ → List ℕ → Store → Stored × Store) where
  unfoldable pub accesses : List Access → EmbeddingCache → Store → EmbeddingCache × Store
  accesses [] c s = (c, s)
  accesses (gets now path body model client ∷ rest) c s =
      accesses rest
        (get utf8 canonical sha256 backend_get backend_setex now path body model client c s).1 s
  accesses (sets now path body model response ∷ rest) c s =
      let (c', s') =
        set utf8 canonical sha256 backend_get backend_setex now path body model response c s in
      accesses rest c' s'

  fetch-Countable :
      (now : ℕ) (client : Option String) (model endpoint : String) (r : Fetched)
      (c : EmbeddingCache)
      → Countable c
      → Countable
          (fetch utf8 canonical sha256 backend_get backend_setex now
            (metric_key client model endpoint)
            r
            c).1
  unfolding fetch
  fetch-Countable now client model endpoint (found value) c (h, m) =
      (count-IsCounted client model endpoint c.hits h, m)
  fetch-Countable now client model endpoint missing c (h, m) =
      (h, count-IsCounted client model endpoint c.misses m)
  fetch-Countable now client model endpoint (get_fails kind) c a = log_error-Countable now kind c a

  -- `get` leaves the cache as it is, or counts once.
  get-fetch :
      (now : ℕ) (path : String) (body : Members) (model : String) (client : Option String)
      (c : EmbeddingCache) (s : Store)
      → let after =
          (get utf8 canonical sha256 backend_get backend_setex now path body model client c s).1 in
        (after ≡ c)
        ⊎ ((r : Fetched) × (after
              ≡ (fetch utf8 canonical sha256 backend_get backend_setex now
                  (metric_key client model path)
                  r
                  c).1))
  unfolding get
  get-fetch now path body model client c s =
      elim (Bool-cases (not c.config.enabled || not c.connected)) [
        | inl e ↦ inl (ground arith)
        | inr e ↦ elim (Option-cases (build_key utf8 canonical sha256 c.config path body model)) [
          | inl k ↦ inl (ground arith)
          | inr (key, k) ↦ inr (backend_get key s, ground arith)
        ]
      ]

  -- The cache stays as it is, or an error is logged.
  abbrev IsLogged : ℕ → EmbeddingCache → EmbeddingCache → Type 0
  IsLogged now c after = (after ≡ c) ⊎ ((kind : String) × (after ≡ log_error now kind c))

  after_set-IsLogged :
      (now : ℕ) (r : Stored × Store) (c : EmbeddingCache)
      → IsLogged now c (after_set utf8 canonical sha256 backend_get backend_setex now r c).0
  unfolding after_set
  after_set-IsLogged now (stored, s) c = inl refl
  after_set-IsLogged now (set_fails kind, s) c = inr (kind, refl)

  set-IsLogged :
      (now : ℕ) (path : String) (body : Members) (model : String) (response : List ℕ)
      (c : EmbeddingCache) (s : Store)
      → IsLogged now c
          (set utf8 canonical sha256 backend_get backend_setex now path body model response c s).0
  unfolding set
  set-IsLogged now path body model response c s =
      elim (Bool-cases (not c.config.enabled || not c.connected)) [
        | inl e ↦ inl (ground arith)
        | inr e ↦ elim (Bool-cases (ltb c.config.max_entry_bytes (length response))) [
          | inl e' ↦ inl (ground arith)
          | inr e' ↦
              elim (Option-cases (build_key utf8 canonical sha256 c.config path body model)) [
                | inl k ↦ inl (ground arith)
                | inr (key, k) ↦
                    let r = backend_setex key c.config.ttl response s in
                    let same : set utf8 canonical sha256 backend_get backend_setex now path body
                          model response c s
                        ≡ after_set utf8 canonical sha256 backend_get backend_setex now r c =
                      ground arith in
                    subst (λ x. IsLogged now c x.0) (sym same) (after_set-IsLogged now r c)
              ]
        ]
      ]

  get-Countable :
      (now : ℕ) (path : String) (body : Members) (model : String) (client : Option String)
      (c : EmbeddingCache) (s : Store)
      → Countable c
      → Countable
          (get utf8 canonical sha256 backend_get backend_setex now path body model client c s).1
  get-Countable now path body model client c s a = elim (get-fetch now path body model client c s) [
    | inl e ↦ subst Countable (sym e) a
    | inr (r, e) ↦ subst Countable (sym e) (fetch-Countable now client model path r c a)
  ]

  set-Countable :
      (now : ℕ) (path : String) (body : Members) (model : String) (response : List ℕ)
      (c : EmbeddingCache) (s : Store)
      → Countable c
      → Countable
          (set utf8 canonical sha256 backend_get backend_setex now path body model response c s).0
  set-Countable now path body model response c s a =
      elim (set-IsLogged now path body model response c s) [
        | inl e ↦ subst Countable (sym e) a
        | inr (kind, e) ↦ subst Countable (sym e) (log_error-Countable now kind c a)
      ]

  -- Whatever is asked of the cache, its counters keep labels that it makes.
  pub accesses-Countable :
      (asked : List Access) (c : EmbeddingCache) (s : Store)
      → Countable c
      → Countable (accesses asked c s).0
  unfolding accesses
  accesses-Countable [] c s a = a
  accesses-Countable (gets now path body model client ∷ rest) c s a =
      accesses-Countable rest
        (get utf8 canonical sha256 backend_get backend_setex now path body model client c s).1 s
        (get-Countable now path body model client c s a)
  accesses-Countable (sets now path body model response ∷ rest) c s a =
      let (c', s') =
        set utf8 canonical sha256 backend_get backend_setex now path body model response c s in
      accesses-Countable rest c' s' (set-Countable now path body model response c s a)
