-- ===== src/Cache/Startup.antt =====
-- What `startup` of src/ollama_queue_proxy/cache.py prints where it ends the process:
-- `_startup_error_detail` with the redacted URL, on code points.
use ollama_queue_proxy.Prelude.{Bool, ◌||◌, Option, [], ◌∷◌, ◌++◌, codes, codes_eq, if◌then◌else◌}
use ollama_queue_proxy.Config.Env.{Codes}
use ollama_queue_proxy.Cache.Redact.{redact_backend_url, userinfo_bled}

-- An exception: the name of its type, its text, and whether it is one of redis-py.
pub record Failure : Type 0 where
  pub type_name : Codes
  pub message : Codes
  pub is_redis_error : Bool

abbrev pub unrecognised : Codes
unrecognised = codes "<unrecognised backend URL>"

-- `endswith`
unfoldable pub ends_with : Codes → Codes → Bool
ends_with suffix [] = codes_eq [] suffix
ends_with suffix (c ∷ s) = let later = ends_with suffix s in codes_eq (c ∷ s) suffix || later

abbrev pub withheld : Codes → Codes
withheld name =
    name
    ++ codes
        " (detail withheld: the URL may hold an unencoded credential; percent-encode reserved characters in the password)"

-- `db_of` and `netloc` are what `parse_qs` and `urlsplit` find.
module _ (db_of : Codes → Codes) (netloc : Codes → Option Codes) where
  unfoldable pub is_unclean : Codes → Bool
  unfolding ends_with
  is_unclean url =
      let redacted = redact_backend_url db_of url in
      codes_eq redacted unrecognised || ends_with (codes "://<redacted>") redacted

  -- `_startup_error_detail`
  unfoldable pub startup_error_detail : Codes → Failure → Codes
  unfolding is_unclean
  startup_error_detail url e =
      if is_unclean url || userinfo_bled netloc url
      then withheld e.type_name
      else if e.is_redis_error
      then e.type_name ++ (codes ": " ++ e.message)
      else e.type_name

  unfoldable pub fatal_message : Codes → Failure → Codes
  unfolding startup_error_detail
  fatal_message url e =
      codes "FATAL: embedding cache startup failed — could not connect to '"
      ++ (redact_backend_url db_of url
          ++ (codes "': "
              ++ (startup_error_detail url e
                  ++ codes ". Fix the backend address or set embedding_cache.enabled: false.")))
