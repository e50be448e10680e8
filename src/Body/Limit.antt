-- ===== src/Body/Limit.antt =====
-- The limit on buffered bodies, and what keep_alive injection changes.
use ollama_queue_proxy.Prelude.{
  ℕ, ◌+◌, ◌≤◌, ◌≡◌, String, false, Option, none, some, List, [], ◌∷◌, ◌++◌, Dict, lookup,
  lookup-insert, lookup-insert_self, length, length-append, ltb, arith, if◌then◌else◌, str_eq,
}
use ollama_queue_proxy.Http.{Request}
use ollama_queue_proxy.Body.{
  body, too_large, body_too_large, max_bytes, collect, declares_too_much, read_body, Field,
  text_field, Loaded, object, KeepAliveConfig, set_keep_alive, inject_keep_alive,
}

-- The bytes of a stream's chunks, one after another.
pub joined : List (List ℕ) → List ℕ
joined [] = []
joined (chunk ∷ chunks) = chunk ++ joined chunks

collect-joined :
    (limit total : ℕ) (chunks : List (List ℕ))
    → total ≤ limit
    → collect limit total chunks
      ≡ (if ltb limit (total + length (joined chunks)) then none else some (joined chunks))
unfolding collect joined
collect-joined limit total [] h = ground arith
collect-joined limit total (chunk ∷ chunks) h =
    ground (
      arith,
      length-append chunk (joined chunks),
      collect-joined limit (total + length chunk) chunks,
    )

-- A body is buffered exactly when neither the declared length nor the number of bytes that arrive
-- is over the limit; then it is what arrived, chunk by chunk, and otherwise the answer is 413.
pub read_body_exact :
    (int : String → Option ℕ) (max_mb : ℕ) (r : Request) (chunks : List (List ℕ))
    → read_body int max_mb r chunks ≡ (
        if declares_too_much int (max_bytes max_mb) r
        then too_large (body_too_large r)
        else if ltb (max_bytes max_mb) (length (joined chunks))
        then too_large (body_too_large r)
        else body (joined chunks))
unfolding read_body
read_body_exact int max_mb r chunks = ground (arith, collect-joined (max_bytes max_mb) 0 chunks)

-- Where upstream reads back the object that is encoded, the fields of a body with an object that is
-- within the limit come through with only `keep_alive` set: to the configured default if the body has none or the
-- configuration overrides it, and to the caller's value otherwise.
pub inject_keep_alive_fields :
    (loads : List ℕ → Loaded) (dumps : Dict Field → List ℕ)
    → (cfg : KeepAliveConfig) (max_mb : ℕ) (bytes : List ℕ) (d : Dict Field)
    → loads (dumps (set_keep_alive cfg d)) ≡ object (set_keep_alive cfg d)
    → loads bytes ≡ object d
    → length bytes ≤ max_bytes max_mb
    → (e : Dict Field) × (loads (inject_keep_alive loads dumps cfg max_mb bytes) ≡ object e)
      × (lookup "keep_alive" e ≡ (elim (lookup "keep_alive" d) [
        | none ↦ some (text_field cfg.default)
        | some v ↦ if cfg.override then some (text_field cfg.default) else some v
      ]))
      × ((name : String) → str_eq "keep_alive" name ≡ false → lookup name e ≡ lookup name d)
unfolding inject_keep_alive set_keep_alive
inject_keep_alive_fields loads dumps cfg max_mb bytes d reads h small = (
  set_keep_alive cfg d,
  ground arith,
  ground (arith, lookup-insert_self "keep_alive" (text_field cfg.default) d),
  λ name other. ground (arith, lookup-insert "keep_alive" name (text_field cfg.default) d),
)
