-- ===== src/Status/Served.antt =====
-- The page of metrics is always served, and read as what it is about.
use ollama_queue_proxy.Prelude.{
  ℕ, ◌≡◌, inl, inr, refl, sym, ap, ◌∙◌, subst, String, Bool, true, not, ◌&&◌, Option, none, some,
  List, [], ◌∷◌, ◌++◌, Dict, All, All-append, lookup, codes, any, all, ◌==◌, arith, Option-cases,
}
use ollama_queue_proxy.Config.Env.{Codes}
use ollama_queue_proxy.Json.{Json}
use ollama_queue_proxy.Cache.{EmbeddingCache, Fetched, Stored}
use ollama_queue_proxy.Concurrency.{ClientState}
use ollama_queue_proxy.Status.{View}
use ollama_queue_proxy.Status.Labels.{Family, page_of, all_lines}
use ollama_queue_proxy.Status.Reader.{is_comment, read_page}
use ollama_queue_proxy.Status.Exposition.{IsLabel}
use ollama_queue_proxy.Status.Page.{IsFamily, all_samples, read_page-page_of}
use ollama_queue_proxy.Status.Metrics.{
  split_label, counted, zeros, cache_families, embedding_families, client_families, queue_families,
  routing_families, between, families, metrics,
}
use ollama_queue_proxy.Status.Accesses.{IsCounted, Countable, Access, accesses, accesses-Countable}
use ollama_queue_proxy.Status.Counters.{split_label-some}

abbrev lacks : ℕ → Codes → Bool
lacks c s = not (any (λ d. d == c) s)

abbrev fits_label : Codes → Bool
fits_label l = lacks b'=' l && lacks b'\n' l

-- `IsFamily` as a test.
abbrev fits : Family → Bool
fits f =
    lacks b' ' f.name
    && lacks b'{' f.name
    && lacks b'\n' f.name
    && not (is_comment f.name)
    && lacks b'\n' f.help
    && lacks b'\n' f.kind
    && all fits_label f.labels

fits_labels : (labels : List Codes) → all fits_label labels ≡ true → All IsLabel labels
fits_labels [] h = tt
fits_labels (l ∷ labels) h = ((ground arith, ground arith), fits_labels labels (ground arith))

fits-IsFamily : (f : Family) → fits f ≡ true → IsFamily f
fits-IsFamily f h = (
  (ground arith, ground arith, ground arith, ground arith),
  ground arith,
  ground arith,
  fits_labels f.labels (ground arith),
)

all-fits : (fs : List Family) → all fits fs ≡ true → All IsFamily fs
all-fits [] h = tt
all-fits (f ∷ fs) h = (fits-IsFamily f (ground arith), all-fits fs (ground arith))

queue-fits : (v : View) → all fits (queue_families v) ≡ true
unfolding queue_families
queue-fits v = refl

routing-fits : (v : View) → all fits (routing_families v) ≡ true
unfolding routing_families
routing-fits v = refl

client-fits : (states : Option (Dict ClientState)) → all fits (client_families states) ≡ true
unfolding client_families
client-fits none = refl
client-fits (some states) = refl

counted-some : (d : Dict ℕ) → All IsCounted d → (s : List (List Codes × ℕ)) × (counted d ≡ some s)
unfolding counted
counted-some [] a = ([], refl)
counted-some ((label, n) ∷ d) a =
    let (later, e) = counted-some d a.1 in
    let (client, model, endpoint, same) = a.0 in
    let (values, split) = split_label-some client model endpoint in
    ((values, n) ∷ later, rw (same, split, e) refl)

zeros-some :
    (hits misses : Dict ℕ)
    → All IsCounted misses
    → (s : List (List Codes × ℕ)) × (zeros hits misses ≡ some s)
unfolding zeros
zeros-some hits [] a = ([], refl)
zeros-some hits ((label, n) ∷ misses) a =
    let (later, e) = zeros-some hits misses a.1 in
    let (client, model, endpoint, same) = a.0 in
    let (values, split) = split_label-some client model endpoint in
    let here : split_label (codes label) ≡ some values =
      ap (λ l. split_label (codes l)) same ∙ split in
    elim (Option-cases (lookup label hits)) [
      | inl h ↦ ((values, 0) ∷ later, ground arith)
      | inr (m, h) ↦ (later, ground arith)
    ]

some_eq : (a b : List Family) → some a ≡ some b → a ≡ b
some_eq a b e = cc

cache-fits :
    (hit missed : List (List Codes × ℕ)) (errors : Dict ℕ)
    → (fs : List Family) × (cache_families (some hit) (some missed) errors ≡ some fs)
      × (all fits fs ≡ true)
unfolding cache_families
cache-fits hit missed errors =
    elim (Option-cases (cache_families (some hit) (some missed) errors)) [
      | inl e ↦ absurd (cc)
      | inr (fs, e) ↦ (fs, e, subst (λ l. all fits l ≡ true) (some_eq _ fs e) refl)
    ]

embedding_families-some :
    (c : EmbeddingCache)
    → Countable c
    → (fs : List Family) × (embedding_families (some c) ≡ some fs) × (all fits fs ≡ true)
unfolding embedding_families
embedding_families-some c (h, m) =
    let (hit, e) = counted-some c.hits h in
    let (zero, e') = zeros-some c.hits c.misses m in
    let (missed, e'') = counted-some c.misses m in
    let (fs, shown, fit) = cache-fits (hit ++ zero) missed c.errors in
    (fs, rw (e, e', e'') shown, fit)

abbrev pub CountableIn : Option EmbeddingCache → Type 0
CountableIn none = Unit
CountableIn (some c) = Countable c

any_embedding :
    (o : Option EmbeddingCache)
    → CountableIn o
    → (fs : List Family) × (embedding_families o ≡ some fs) × (all fits fs ≡ true)
unfolding embedding_families
any_embedding none a = ([], refl, refl)
any_embedding (some c) a = embedding_families-some c a

-- The page of a state whose counters have labels that the cache makes.
pub metrics-Countable :
    (v : View)
    → CountableIn v.embedding_cache
    → (fs : List Family) × (page : Codes) × (families v ≡ some fs)
      × (metrics v ≡ some page)
      × (read_page page ≡ some (all_samples fs))
unfolding metrics families between
metrics-Countable v a =
    let (here, e, fit) = any_embedding v.embedding_cache a in
    let before = queue_families v ++ client_families v.client_states in
    let fs = before ++ (here ++ routing_families v) in
    let shown : families v ≡ some fs = rw e refl in
    let good : All IsFamily fs =
      All-append IsFamily before (here ++ routing_families v)
        (All-append IsFamily (queue_families v) (client_families v.client_states)
          (all-fits (queue_families v) (queue-fits v))
          (all-fits (client_families v.client_states) (client-fits v.client_states)))
        (All-append IsFamily here (routing_families v) (all-fits here fit)
          (all-fits (routing_families v) (routing-fits v))) in
    (fs, page_of (all_lines fs), shown, rw shown refl, read_page-page_of fs good)

module _ {Store : Type 0} (utf8 : String → List ℕ) (canonical : Json → List ℕ)
    (sha256 : List ℕ → String) (backend_get : String → Store → Fetched)
    (backend_setex : String → ℕ → List ℕ → Store → Stored × Store) where
  -- With an embedding cache that started with no counts, and whatever was asked of it since, the page of
  -- metrics is served, and a scraper reads it as the samples it is about, in order: no name of a client,
  -- a model, a host or an error adds, hides or changes a sample, or makes the page fail.
  pub metrics_served :
      (asked : List Access) (c : EmbeddingCache) (s : Store) (v : View)
      → c.hits ≡ []
      → c.misses ≡ []
      → v.embedding_cache
        ≡ some (accesses utf8 canonical sha256 backend_get backend_setex asked c s).0
      → (fs : List Family) × (page : Codes) × (families v ≡ some fs)
        × (metrics v ≡ some page)
        × (read_page page ≡ some (all_samples fs))
  metrics_served asked c s v h m same =
      let start : Countable c =
        (subst (All IsCounted) (sym h) tt, subst (All IsCounted) (sym m) tt) in
      metrics-Countable v (
        subst CountableIn (sym same)
          (accesses-Countable utf8 canonical sha256 backend_get backend_setex asked c s start))
