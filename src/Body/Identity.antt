-- ===== src/Body/Identity.antt =====
-- The error of `read_body` of src/ollama_queue_proxy/proxy.py names its request.
use ollama_queue_proxy.Prelude.{
  ℕ, ◌≡◌, refl, String, Option, List, Bool-cases, Option-cases, inl, inr,
}
use ollama_queue_proxy.Http.{Request}
use ollama_queue_proxy.Body.{
  Body, body, too_large, read_body, body_too_large, declares_too_much, collect, max_bytes,
}

abbrev pub LargeCarries : String → Body → Type 0
LargeCarries id (body b) = Unit
LargeCarries id (too_large e) = e.request_id ≡ id

pub read_body-LargeCarries :
    (int : String → Option ℕ) (max_mb : ℕ) (r : Request) (chunks : List (List ℕ))
    → LargeCarries r.request_id (read_body int max_mb r chunks)
unfolding read_body body_too_large
read_body-LargeCarries int max_mb r chunks =
    elim (Bool-cases (declares_too_much int (max_bytes max_mb) r)) [
      | inl e ↦ rw (e, read_body) refl
      | inr e ↦ elim (Option-cases (collect (max_bytes max_mb) 0 chunks)) [
        | inl c ↦ rw (e, read_body, c) refl
        | inr (b, c) ↦ rw (e, read_body, c) tt
      ]
    ]
