-- ===== src/Gateway/Compat/Vectors.antt =====
-- What a client of OpenAI's endpoint reads.
use ollama_queue_proxy.Prelude.{
  ℕ, suc, ◌≡◌, refl, String, Option, none, some, List, [], ◌==◌, arith, if◌then◌else◌,
}
use ollama_queue_proxy.Http.{Response, upstream, json}
use ollama_queue_proxy.Json.{Json, number, array, object, Items, nil, cons, Members, get_member}
use ollama_queue_proxy.Gateway.Compat.{
  enumerated, openai_body, resolved_model, elements, wrap_response, wrap_body, compat_answer,
}

abbrev dictionary : Option Json → Option Members
dictionary (some (object m)) = some m
dictionary (some other) = none
dictionary none = none

abbrev list_of : Option Json → Option Items
list_of (some (array items)) = some items
list_of (some other) = none
list_of none = none

abbrev is_number : ℕ → Option Json → Option ℕ
is_number n (some (number m)) = if m == n then some m else none
is_number n (some other) = none
is_number n none = none

abbrev consed : Option ℕ → Option Json → Option Items → Option Items
consed (some i) (some v) (some rest) = some (cons v rest)
consed i v rest = none

-- The vectors of `data`, each under an index that is its place from `i` on.
unfoldable read_vectors : ℕ → Items → Option Items
unfolding get_member
read_vectors i nil = some nil
read_vectors i (cons entry rest) =
    let later = read_vectors (suc i) rest in
    elim (dictionary (some entry)) [
      | none ↦ none
      | some m ↦ consed (is_number i (get_member "index" m)) (get_member "embedding" m) later
    ]

abbrev paired : Option Items → Option Json → Option (Items × Json)
paired (some items) (some model) = some (items, model)
paired items model = none

-- What a client of OpenAI's endpoint takes from a body: the vectors by their indices, and the model.
unfoldable pub read_openai : Option Json → Option (Items × Json)
unfolding get_member read_vectors
read_openai body = elim (dictionary body) [
  | none ↦ none
  | some m ↦ elim (list_of (get_member "data" m)) [
    | none ↦ none
    | some entries ↦ paired (read_vectors 0 entries) (get_member "model" m)
  ]
]

read_vectors-enumerated : (i : ℕ) (items : Items) → read_vectors i (enumerated i items) ≡ some items
unfolding read_vectors enumerated
read_vectors-enumerated i nil = refl
read_vectors-enumerated i (cons v rest) = ground (arith, read_vectors-enumerated (suc i) rest)

read_openai-openai_body :
    (items : Items) (model : Json)
    → read_openai (some (openai_body items model)) ≡ some (items, model)
unfolding read_openai openai_body
read_openai-openai_body items model = rw (read_vectors-enumerated 0 items) refl

-- On OpenAI's path, an answer of status 200 with the vectors of `/api/embed` and their model is
-- answered with status 200, and a client that takes the vectors by their indices reads the same
-- vectors, all of them and in the same order, and the same model; no header of the answer is left, those
-- that name the host, the wait and the cache among them. The renderer's output is parsed back to
-- what it renders.
pub compat_vectors :
    (characters : String → Items) (parse : List ℕ → Option Json) (dumps : Json → List ℕ)
    (a : Response) (m : Members) (vectors : Items) (model : Json)
    → a.kind ≡ json
    → a.status_code ≡ 200
    → parse a.body ≡ some (object m)
    → get_member "embeddings" m ≡ some (array vectors)
    → get_member "model" m ≡ some model
    → ((j : Json) → wrap_response characters none m ≡ some j → parse (dumps j) ≡ some j)
    → (r : Response) × (compat_answer characters parse dumps (upstream a) ≡ some (upstream r))
      × (r.status_code ≡ 200)
      × (r.headers ≡ [])
      × (read_openai (parse r.body) ≡ some (vectors, model))
unfolding compat_answer wrap_body wrap_response resolved_model elements
compat_vectors characters parse dumps a m vectors model k s p e o rendered =
    let j = openai_body vectors model in
    (
      record { kind = json; status_code = 200; body = dumps j; headers = [] },
      ground (arith, k, s, p, e, o),
      refl,
      refl,
      rw (rendered j (ground (arith, e, o))) (read_openai-openai_body vectors model),
    )
