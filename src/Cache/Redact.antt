-- ===== src/Cache/Redact.antt =====
-- `redact_backend_url` and `_userinfo_bled` of src/ollama_queue_proxy/cache.py, on code points.
use ollama_queue_proxy.Prelude.{
  ℕ, Bool, true, false, not, ◌&&◌, ◌||◌, Option, none, some, [], ◌∷◌, ◌++◌, codes, codes_eq, leb,
  any, all, ◌==◌, if◌then◌else◌,
}
use ollama_queue_proxy.Config.Env.{Codes, after_prefix, is_digits}

abbrev pub letter : ℕ → Bool
letter c = (leb b'A' c && leb c b'Z') || (leb b'a' c && leb c b'z')

abbrev pub scheme_char : ℕ → Bool
scheme_char c = letter c || (leb b'0' c && leb c b'9') || c == b'+' || c == b'.' || c == b'-'

-- `_SCHEME_RE.fullmatch`
abbrev pub is_scheme : Codes → Bool
is_scheme [] = false
is_scheme (c ∷ s) = letter c && all scheme_char s

abbrev pub end_of_scheme : Codes
end_of_scheme = b':' ∷ b'/' ∷ b'/' ∷ []

abbrev pub in_front : ℕ → Option (Codes × Codes) → Option (Codes × Codes)
in_front c none = none
in_front c (some (before, after)) = some (c ∷ before, after)

-- `url.partition("://")`, if the separator is there.
unfoldable pub partition_scheme : Codes → Option (Codes × Codes)
unfolding after_prefix
partition_scheme [] = none
partition_scheme (c ∷ s) =
    let later = in_front c (partition_scheme s) in
    elim (after_prefix end_of_scheme (c ∷ s)) [ none ↦ later | some rest ↦ some ([], rest) ]

abbrev pub ends_location : ℕ → Bool
ends_location c = c == b'?' || c == b'#'

-- `rest[:cut]` and `rest[cut:]`, where `cut` is the first "?" or "#", or the end.
unfoldable pub cut_tail : Codes → Codes × Codes
cut_tail [] = ([], [])
cut_tail (c ∷ s) =
    let (location, tail) = cut_tail s in
    if ends_location c then ([], c ∷ s) else (c ∷ location, tail)

abbrev pub has_at : Codes → Bool
has_at = any (λ c. c == b'@')

-- `location.rpartition("@")[2]`
unfoldable pub after_last_at : Codes → Codes
after_last_at [] = []
after_last_at (c ∷ s) =
    let later = after_last_at s in if has_at s then later else if c == b'@' then s else c ∷ s

-- `partition("#")[0]`
unfoldable pub before_fragment : Codes → Codes
before_fragment [] = []
before_fragment (c ∷ s) = let rest = before_fragment s in if c == b'#' then [] else c ∷ rest

-- `tail[1:].partition("#")[0] if tail.startswith("?") else ""`
unfoldable pub query_of : Codes → Codes
unfolding before_fragment
query_of [] = []
query_of (c ∷ s) = if c == b'?' then before_fragment s else []

unfoldable pub redacted : Codes → Codes
redacted scheme = scheme ++ (end_of_scheme ++ codes "<redacted>")

-- `db_of query` is `parse_qs(query).get("db", [""])[0]`; digits are taken to be ASCII.
module _ (db_of : Codes → Codes) where
  unfoldable pub suffix_of : Codes → Codes
  unfolding query_of
  suffix_of tail = let db = db_of (query_of tail) in if is_digits db then codes "?db=" ++ db else []

  -- The URL past its scheme.
  unfoldable pub redact_rest : Codes → Codes × Codes → Codes
  unfolding redacted after_last_at suffix_of
  redact_rest scheme (raw, tail) =
      let location = after_last_at raw in
      if has_at location || has_at tail
      then redacted scheme
      else scheme ++ (end_of_scheme ++ (location ++ suffix_of tail))

  unfoldable pub redact_backend_url : Codes → Codes
  unfolding partition_scheme redact_rest cut_tail
  redact_backend_url url = elim (partition_scheme url) [
    | none ↦ codes "<unrecognised backend URL>"
    | some (scheme, rest) ↦
        if is_scheme scheme
        then redact_rest scheme (cut_tail rest)
        else codes "<unrecognised backend URL>"
  ]

-- `rpartition("@")[0]`
unfoldable pub before_last_at : Codes → Codes
before_last_at [] = []
before_last_at (c ∷ s) = let rest = before_last_at s in if has_at s then c ∷ rest else []

-- `netloc` is what `urlsplit` finds, `none` for a ValueError.
unfoldable pub userinfo_bled : (netloc : Codes → Option Codes) → Codes → Bool
unfolding partition_scheme before_last_at
userinfo_bled netloc url = elim (partition_scheme url) [
  | none ↦ has_at url
  | some (scheme, after) ↦
      if has_at after
      then elim (netloc url) [
        | none ↦ true
        | some n ↦ not (codes_eq (before_last_at n) (before_last_at after))
      ]
      else false
]
