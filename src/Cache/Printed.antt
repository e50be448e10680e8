-- ===== src/Cache/Printed.antt =====
-- Credentials in the URL of the backend, and the whole of what is printed where it does not answer.
use ollama_queue_proxy.Prelude.{
  ◌≡◌, ◌⊎◌, inl, inr, refl, ◌∙◌, true, false, ◌||◌, Option, some, [], ◌∷◌, ◌++◌, codes, codes_eq,
  codes_eq_sound, arith, Bool-cases, Option-cases,
}
use ollama_queue_proxy.Config.Env.{Codes}
use ollama_queue_proxy.Cache.Redact.{
  is_scheme, has_at, before_last_at, redacted, redact_backend_url, userinfo_bled,
}
use ollama_queue_proxy.Cache.Secrets.{
  url_of, partition-scheme, is_scheme-all, has_at-append, redact_backend_url_hides,
}
use ollama_queue_proxy.Cache.Startup.{
  Failure, withheld, is_unclean, startup_error_detail, fatal_message,
}

before_last_at-append :
    (user rest : Codes) → has_at rest ≡ false → before_last_at (user ++ b'@' ∷ rest) ≡ user
unfolding before_last_at
before_last_at-append [] rest h = ground arith
before_last_at-append (c ∷ user) rest h =
    ground (arith, has_at-append user rest, before_last_at-append user rest h)

-- Where the user information has not bled, `urlsplit` finds it as it is.
bled-netloc :
    (netloc : Codes → Option Codes) (scheme user rest : Codes)
    → is_scheme scheme ≡ true
    → has_at rest ≡ false
    → userinfo_bled netloc (url_of scheme user rest) ≡ false
    → (n : Codes) × (netloc (url_of scheme user rest) ≡ some n) × (before_last_at n ≡ user)
unfolding userinfo_bled
bled-netloc netloc scheme user rest s h b =
    let url = url_of scheme user rest in
    let after = user ++ b'@' ∷ rest in
    let parts = partition-scheme scheme after (is_scheme-all scheme s) in
    let at = has_at-append user rest in
    elim (Option-cases (netloc url)) [
      | inl e ↦ absurd (ground (arith, parts, at, e))
      | inr (n, e) ↦
          let same : codes_eq (before_last_at n) (before_last_at after) ≡ true =
            ground (arith, parts, at, e) in
          (
            n,
            e,
            codes_eq_sound (before_last_at n) (before_last_at after) same
                ∙ before_last_at-append user rest h,
          )
    ]

-- What is said of an exception: never its own text, unless it is one of redis-py and `urlsplit` finds
-- the user information as it is.
abbrev pub IsDetail : (netloc : Codes → Option Codes) (url user : Codes) → Failure → Codes → Type 0
IsDetail netloc url user e detail =
    (detail ≡ withheld e.type_name)
    ⊎ (detail ≡ e.type_name)
    ⊎ ((detail ≡ e.type_name ++ (codes ": " ++ e.message))
        × (e.is_redis_error ≡ true)
        × ((n : Codes) × (netloc url ≡ some n) × (before_last_at n ≡ user)))

startup_error_detail-IsDetail :
    (db_of : Codes → Codes) (netloc : Codes → Option Codes) (scheme user rest : Codes) (e : Failure)
    → is_scheme scheme ≡ true
    → has_at rest ≡ false
    → let url = url_of scheme user rest in
      IsDetail netloc url user e (startup_error_detail db_of netloc url e)
unfolding startup_error_detail
startup_error_detail-IsDetail db_of netloc scheme user rest e s h =
    let url = url_of scheme user rest in
    elim (Bool-cases (is_unclean db_of netloc url || userinfo_bled netloc url)) [
      | inl hidden ↦ inl (ground (arith, hidden))
      | inr shown ↦ elim (Bool-cases e.is_redis_error) [
        | inl redis ↦ inr (
            inr (
              ground (arith, shown, redis),
              redis,
              bled-netloc netloc scheme user rest s h (ground (arith, shown)),
            ))
        | inr other ↦ inr (inl (ground (arith, shown, other)))
      ]
    ]

-- What is printed where the backend does not answer at the start, with any user information that stands
-- before the last "@": of the URL, what is printed for an empty one, or the scheme with "<redacted>"; and
-- of the exception, no text of its own, unless it is one of redis-py and `urlsplit` finds exactly
-- that user information in the URL, so that the host that redis-py names has none of it.
pub fatal_message_hides :
    (db_of : Codes → Codes) (netloc : Codes → Option Codes) (scheme user rest : Codes) (e : Failure)
    → is_scheme scheme ≡ true
    → has_at rest ≡ false
    → let url = url_of scheme user rest in
      (shown detail : Codes) × (fatal_message db_of netloc url e
        ≡ codes "FATAL: embedding cache startup failed — could not connect to '"
          ++ (shown
              ++ (codes "': "
                  ++ (detail
                      ++ codes
                          ". Fix the backend address or set embedding_cache.enabled: false."))))
      × ((shown ≡ redact_backend_url db_of (url_of scheme [] rest)) ⊎ (shown ≡ redacted scheme))
      × IsDetail netloc url user e detail
unfolding fatal_message
fatal_message_hides db_of netloc scheme user rest e s h =
    let url = url_of scheme user rest in
    (
      redact_backend_url db_of url,
      startup_error_detail db_of netloc url e,
      refl,
      redact_backend_url_hides db_of scheme user rest s,
      startup_error_detail-IsDetail db_of netloc scheme user rest e s h,
    )
