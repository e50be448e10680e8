-- ===== src/Cache/Secrets.antt =====
-- Credentials in the URL of the backend, and what is printed of it.
use ollama_queue_proxy.Prelude.{
  ℕ, ◌≡◌, ◌⊎◌, inl, inr, refl, sym, ap, ◌∙◌, true, false, some, [], ◌∷◌, ◌++◌, all, ◌==◌, arith,
  Bool-cases,
}
use ollama_queue_proxy.Config.Env.{Codes, after_prefix}
use ollama_queue_proxy.Cache.Redact.{
  scheme_char, is_scheme, end_of_scheme, partition_scheme, ends_location, cut_tail, has_at,
  after_last_at, redacted, redact_rest, redact_backend_url,
}

-- A URL with that scheme, user information and rest.
abbrev pub url_of : Codes → Codes → Codes → Codes
url_of scheme user rest = scheme ++ (end_of_scheme ++ (user ++ b'@' ∷ rest))

no_colon : (c : ℕ) → scheme_char c ≡ true → (c == b':') ≡ false
no_colon c h = ground arith

partition-separator : (s : Codes) → partition_scheme (end_of_scheme ++ s) ≡ some ([], s)
unfolding partition_scheme after_prefix
partition-separator s = refl

pub partition-scheme :
    (scheme s : Codes)
    → all scheme_char scheme ≡ true
    → partition_scheme (scheme ++ (end_of_scheme ++ s)) ≡ some (scheme, s)
unfolding partition_scheme after_prefix
partition-scheme [] s h = partition-separator s
partition-scheme (c ∷ scheme) s h = ground (arith, no_colon c, partition-scheme scheme s)

pub is_scheme-all : (s : Codes) → is_scheme s ≡ true → all scheme_char s ≡ true
is_scheme-all [] h = refl
is_scheme-all (c ∷ s) h = ground arith

pub has_at-append : (xs ys : Codes) → has_at (xs ++ b'@' ∷ ys) ≡ true
has_at-append [] ys = refl
has_at-append (x ∷ xs) ys = ground (arith, has_at-append xs ys)

-- What stands before an "@" does not matter for what follows the last one.
after_last_at-append : (xs ys : Codes) → after_last_at (xs ++ b'@' ∷ ys) ≡ after_last_at (b'@' ∷ ys)
unfolding after_last_at
after_last_at-append [] ys = refl
after_last_at-append (x ∷ xs) ys = ground (arith, has_at-append xs ys, after_last_at-append xs ys)

-- The user information is cut off with the location, or it puts the "@" into the tail.
cut_tail-user :
    (user rest : Codes)
    → ((cut_tail (user ++ b'@' ∷ rest)).0 ≡ user ++ b'@' ∷ (cut_tail rest).0)
        × ((cut_tail (user ++ b'@' ∷ rest)).1 ≡ (cut_tail rest).1)
      ⊎ (has_at (cut_tail (user ++ b'@' ∷ rest)).1 ≡ true)
unfolding cut_tail
cut_tail-user [] rest = inl (refl, refl)
cut_tail-user (c ∷ user) rest = elim (Bool-cases (ends_location c)) [
  | inl e ↦ inr (ground (arith, has_at-append user rest))
  | inr e ↦ elim (cut_tail-user user rest) [
    | inl (location, tail) ↦ inl (ground arith, ground arith)
    | inr at ↦ inr (ground arith)
  ]
]

module _ (db_of : Codes → Codes) where
  redact_rest-hides :
      (scheme raw other tail : Codes)
      → after_last_at raw ≡ after_last_at other
      → redact_rest db_of scheme (raw, tail) ≡ redact_rest db_of scheme (other, tail)
  unfolding redact_rest
  redact_rest-hides scheme raw other tail e = rw e refl

  redact_rest-ambiguous :
      (scheme raw tail : Codes)
      → has_at tail ≡ true
      → redact_rest db_of scheme (raw, tail) ≡ redacted scheme
  unfolding redact_rest
  redact_rest-ambiguous scheme raw tail h = ground arith

  redact-url :
      (scheme user rest : Codes)
      → is_scheme scheme ≡ true
      → redact_backend_url db_of (url_of scheme user rest)
        ≡ redact_rest db_of scheme (cut_tail (user ++ b'@' ∷ rest))
  unfolding redact_backend_url
  redact-url scheme user rest h =
      let parts = partition-scheme scheme (user ++ b'@' ∷ rest) (is_scheme-all scheme h) in
      ground arith

  cut_at :
      (scheme rest : Codes)
      → redact_rest db_of scheme (cut_tail (b'@' ∷ rest))
        ≡ redact_rest db_of scheme (b'@' ∷ (cut_tail rest).0, (cut_tail rest).1)
  unfolding cut_tail
  cut_at scheme rest = refl

  -- What is printed of the backend's URL does not depend on its user information, whatever characters
  -- that has: it is what is printed for an empty one, or the scheme with "<redacted>".
  pub redact_backend_url_hides :
      (scheme user rest : Codes)
      → is_scheme scheme ≡ true
      → (redact_backend_url db_of (url_of scheme user rest)
          ≡ redact_backend_url db_of (url_of scheme [] rest))
        ⊎ (redact_backend_url db_of (url_of scheme user rest) ≡ redacted scheme)
  redact_backend_url_hides scheme user rest h =
      let cut = cut_tail (user ++ b'@' ∷ rest) in
      elim (cut_tail-user user rest) [
        | inl (location, tail) ↦ inl (
            redact-url scheme user rest h
            ∙ ap (λ (t : Codes). redact_rest db_of scheme (cut.0, t)) tail
            ∙ redact_rest-hides scheme cut.0 (b'@' ∷ (cut_tail rest).0) (cut_tail rest).1
                (ap after_last_at location ∙ after_last_at-append user (cut_tail rest).0)
            ∙ sym (redact-url scheme [] rest h ∙ cut_at scheme rest))
        | inr at ↦ inr (redact-url scheme user rest h ∙ redact_rest-ambiguous scheme cut.0 cut.1 at)
      ]
