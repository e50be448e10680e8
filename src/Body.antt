-- ===== src/Body.antt =====
-- Request bodies: `read_body` of src/ollama_queue_proxy/proxy.py and `_inject_keep_alive` of
-- src/ollama_queue_proxy/main.py.
pub mod Limit
pub mod Identity
use ollama_queue_proxy.Prelude.{
  ℕ, ◌+◌, ◌*◌, String, Bool, true, false, not, ◌||◌, Option, none, some, List, [], ◌∷◌, ◌++◌, Dict,
  lookup, insert, length, ltb, str_eq, if◌then◌else◌,
}
use ollama_queue_proxy.Http.{Request, header, ErrorResponse}

-- The body, or an error answer.
pub data Body : Type 0 where
  body : List ℕ → Body
  too_large : ErrorResponse → Body

pub body_too_large : Request → ErrorResponse
body_too_large r = record {
  status_code = 413;
  error = "request body too large";
  request_id = r.request_id;
  headers = [];
}

unfoldable pub max_bytes : ℕ → ℕ
max_bytes max_mb = max_mb * 1024 * 1024

-- The loop over `request.stream()`, from a `total` on.
unfoldable pub collect : ℕ → ℕ → List (List ℕ) → Option (List ℕ)
collect limit total [] = some []
collect limit total (chunk ∷ chunks) =
    let rest = collect limit (total + length chunk) chunks in
    if ltb limit (total + length chunk)
    then none
    else elim rest [ none ↦ none | some later ↦ some (chunk ++ later) ]

-- `int n` is the number that Python's `int(content_length)` reads (0 for a negative one), if it
-- reads one.
module _ (int : String → Option ℕ) where
  unfoldable pub declares_too_much : ℕ → Request → Bool
  unfolding header
  declares_too_much limit r = elim (header r "content-length") [
    | none ↦ false
    | some value ↦ elim (int value) [ none ↦ false | some cl ↦ ltb limit cl ]
  ]

  unfoldable pub read_body : ℕ → Request → List (List ℕ) → Body
  unfolding body_too_large max_bytes
  read_body max_mb r chunks =
      if declares_too_much (max_bytes max_mb) r
      then too_large (body_too_large r)
      else elim (collect (max_bytes max_mb) 0 chunks) [
        | none ↦ too_large (body_too_large r)
        | some bytes ↦ body bytes
      ]

-- A value of a JSON object: a text, or any other value by its encoding.
pub data Field : Type 0 where
  text_field : String → Field
  other_field : List ℕ → Field

-- What `json.loads` makes of a body.
pub data Loaded : Type 0 where
  object : Dict Field → Loaded
  not_object not_json : Loaded

pub record KeepAliveConfig : Type 0 where
  pub default : String
  pub override : Bool

unfoldable pub set_keep_alive : KeepAliveConfig → Dict Field → Dict Field
set_keep_alive cfg data_fields = elim (lookup "keep_alive" data_fields) [
  | none ↦ insert "keep_alive" (text_field cfg.default) data_fields
  | some v ↦
      if cfg.override then insert "keep_alive" (text_field cfg.default) data_fields else data_fields
]

module _ (loads : List ℕ → Loaded) (dumps : Dict Field → List ℕ) where
  unfoldable pub inject_keep_alive : KeepAliveConfig → ℕ → List ℕ → List ℕ
  unfolding set_keep_alive max_bytes
  inject_keep_alive cfg max_mb bytes =
      if ltb (max_bytes max_mb) (length bytes) then bytes else elim (loads bytes) [
        | not_json ↦ bytes
        | not_object ↦ bytes
        | object data_fields ↦ dumps (set_keep_alive cfg data_fields)
      ]
