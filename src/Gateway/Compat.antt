-- ===== src/Gateway/Compat.antt =====
-- `wrap_response` of src/ollama_queue_proxy/openai_compat.py, and where `proxy_handler` of
-- src/ollama_queue_proxy/main.py calls it.
pub mod Vectors
use ollama_queue_proxy.Prelude.{
  ℕ, zero, suc, String, true, false, ◌&&◌, Option, none, some, List, [], ◌==◌, str_eq,
  if◌then◌else◌,
}
use ollama_queue_proxy.Http.{Answer, upstream, error, json}
use ollama_queue_proxy.Json.{
  Json, null, boolean, number, string, array, object, Items, nil, cons, Members, no_member, member,
  get_member,
}
use ollama_queue_proxy.Gateway.Cached.{is_json}

-- The keys of a dictionary, in order.
unfoldable pub keys_of : Members → Items
keys_of no_member = nil
keys_of (member name value rest) = cons (string name) (keys_of rest)

-- One element of `data` for each vector, numbered from `i`.
unfoldable pub enumerated : ℕ → Items → Items
enumerated i nil = nil
enumerated i (cons vec rest) =
    cons
      (object (
        member "object" (string "embedding")
          (member "embedding" vec (member "index" (number i) no_member))))
      (enumerated (suc i) rest)

-- `model or ollama_body.get("model", "")`
unfoldable pub resolved_model : Option String → Members → Json
unfolding get_member
resolved_model model m =
    let own : Json = elim (get_member "model" m) [ none ↦ string "" | some j ↦ j ] in
    elim model [ none ↦ own | some name ↦ if str_eq name "" then own else string name ]

unfoldable pub openai_body : Items → Json → Json
unfolding enumerated
openai_body embeddings model = object (
    member "object" (string "list") (
      member "data" (array (enumerated 0 embeddings)) (
        member "model" model (
          member "usage"
            (object
              (member "prompt_tokens" (number 0) (member "total_tokens" (number 0) no_member)))
            no_member))))

-- `characters` are the texts that Python's iteration over a text makes.
module _ (characters : String → Items) where
  -- What `enumerate(value or [])` goes through; `none` is its TypeError.
  unfoldable pub elements : Json → Option Items
  unfolding keys_of
  elements null = some nil
  elements (boolean false) = some nil
  elements (boolean true) = none
  elements (number zero) = some nil
  elements (number (suc n)) = none
  elements (string s) = some (if str_eq s "" then nil else characters s)
  elements (array items) = some items
  elements (object m) = some (keys_of m)

  unfoldable pub wrap_response : Option String → Members → Option Json
  unfolding elements resolved_model openai_body get_member
  wrap_response model m =
      let embeddings : Option Items = elim (get_member "embeddings" m) [
        | none ↦ some nil
        | some j ↦ elements j
      ] in
      elim embeddings [
        | none ↦ none
        | some items ↦ some (openai_body items (resolved_model model m))
      ]

  -- On a body that is no dictionary, `get` is an AttributeError.
  unfoldable pub wrap_body : Json → Option Json
  unfolding wrap_response
  wrap_body (object m) = wrap_response none m
  wrap_body other = none

  -- What `proxy_handler` makes of the answer on a path of OpenAI: `none` is an uncaught exception. The
  -- answers of errors have no status 200. `parse` is `json.loads`, and `dumps` how JSONResponse renders.
  unfoldable pub compat_answer : (List ℕ → Option Json) → (Json → List ℕ) → Answer → Option Answer
  unfolding wrap_body
  compat_answer parse dumps (error e) = some (error e)
  compat_answer parse dumps (upstream a) =
      if is_json a.kind && a.status_code == 200
      then elim (parse a.body) [
        | none ↦ none
        | some j ↦ elim (wrap_body j) [
          | none ↦ none
          | some wrapped ↦ some (
              upstream
                (record { kind = json; status_code = 200; body = dumps wrapped; headers = [] }))
        ]
      ]
      else some (upstream a)
