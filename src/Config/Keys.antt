-- ===== src/Config/Keys.antt =====
-- `ApiKeyConfig` of src/ollama_queue_proxy/config.py: from an entry of the configuration to a key.
use Prim.Native.Char.{code}
use ollama_queue_proxy.Prelude.{
  ℕ, String, Bool, true, false, ◌&&◌, ◌||◌, Option, none, some, List, [], ◌∷◌, leb, ◌==◌,
  if◌then◌else◌,
}
use ollama_queue_proxy.Priority.{Tier}
use ollama_queue_proxy.Scope.{Scope, read, inference, management}
use ollama_queue_proxy.Config.{ApiKeyConfig}

-- Python's integers, over the native numbers: `negsuc n` is `-(n + 1)`.
pub data ℤ : Type 0 where
  pos negsuc : ℕ → ℤ

-- An entry of `auth.keys`. `scope` is there if it is in `model_fields_set`.
pub record KeyEntry : Type 0 where
  pub key : Option String
  pub key_env : Option String
  pub key_file : Option String
  pub client_id : String
  pub max_priority : Tier
  pub scope : Option Scope
  pub management_flag : Bool
  pub max_concurrent : ℤ

-- The validator that refuses an entry.
pub data KeyError : Type 0 where
  negative_concurrent contradicts no_key several_keys env_not_set unreadable_file empty_key :
      KeyError

pub data Validated (A : Type 0) : Type 0 where
  valid : A → Validated A
  refused : KeyError → Validated A

-- `str.isspace` of one character.
abbrev pub is_space : ℕ → Bool
is_space c =
    (leb 9 c && leb c 13)
    || (leb 28 c && leb c 32)
    || c == 133
    || c == 160
    || c == 5760
    || (leb 8192 c && leb c 8202)
    || c == 8232
    || c == 8233
    || c == 8239
    || c == 8287
    || c == 12288

unfoldable pub lstrip : String → String
lstrip String.[] = String.[]
lstrip (String.◌∷◌ c s) = let rest = lstrip s in if is_space (code c) then rest else String.◌∷◌ c s

-- A character in front of a text that is stripped on its right.
unfoldable pub before : String → Bool → String → String
before (String.◌∷◌ d s) space c = c
before String.[] true c = String.[]
before String.[] false c = c

unfoldable pub rstrip : String → String
rstrip String.[] = String.[]
rstrip (String.◌∷◌ c s) = let rest = rstrip s in before rest (is_space (code c)) (String.◌∷◌ c rest)

-- `str.strip`
unfoldable pub strip : String → String
unfolding lstrip rstrip before
strip s = rstrip (lstrip s)

unfoldable pub is_empty_text : String → Bool
is_empty_text String.[] = true
is_empty_text (String.◌∷◌ c s) = false

-- `not self.key or not self.key.strip()`
unfoldable pub is_blank : String → Bool
unfolding is_empty_text strip
is_blank s = is_empty_text s || is_empty_text (strip s)

unfoldable pub not_blank : String → Validated String
not_blank s = if is_blank s then refused empty_key else valid s

-- `scope` and the deprecated `management: true` in one.
unfoldable pub reconcile_deprecated_management : KeyEntry → Validated Scope
reconcile_deprecated_management e = elim e.management_flag [
  | false ↦ elim e.scope [ none ↦ valid inference | some s ↦ valid s ]
  | true ↦ elim e.scope [
    | none ↦ valid management
    | some management ↦ valid management
    | some inference ↦ refused contradicts
    | some read ↦ refused contradicts
  ]
]

abbrev pub from_env : Option String → Validated String
from_env none = refused env_not_set
from_env (some value) = not_blank value

abbrev pub from_file : Option String → Validated String
from_file none = refused unreadable_file
from_file (some content) = not_blank (strip content)

-- A key with its scope, unless one of the two is refused.
unfoldable pub with_scope :
    KeyEntry → ℕ → Validated Scope → Validated String → Validated ApiKeyConfig
with_scope e cap (refused x) key = refused x
with_scope e cap (valid scope) (refused x) = refused x
with_scope e cap (valid scope) (valid key) = valid (record {
  key = key;
  client_id = e.client_id;
  max_priority = e.max_priority;
  scope = scope;
  max_concurrent = cap;
})

unfoldable pub with_key :
    Validated ApiKeyConfig → Validated (List ApiKeyConfig) → Validated (List ApiKeyConfig)
with_key (refused x) rest = refused x
with_key (valid k) (refused x) = refused x
with_key (valid k) (valid ks) = valid (k ∷ ks)

-- `environment` is `os.environ.get`, and `read_text` reads a file, `none` for an OSError.
module _ (environment : String → Option String) (read_text : String → Option String) where
  -- The three sources, in the order of the entry's fields.
  unfoldable pub resolve : Option String → Option String → Option String → Validated String
  unfolding not_blank
  resolve none none none = refused no_key
  resolve (some key) none none = not_blank key
  resolve none (some name) none = from_env (environment name)
  resolve none none (some path) = from_file (read_text path)
  resolve (some key) (some name) file = refused several_keys
  resolve (some key) none (some path) = refused several_keys
  resolve none (some name) (some path) = refused several_keys

  unfoldable pub resolve_key_source : KeyEntry → Validated String
  unfolding resolve
  resolve_key_source e = resolve e.key e.key_env e.key_file

  -- `non_negative_concurrent` comes first, and then the two validators of the whole entry.
  unfoldable pub validate_with : KeyEntry → ℤ → Validated ApiKeyConfig
  unfolding with_scope resolve_key_source reconcile_deprecated_management
  validate_with e (negsuc n) = refused negative_concurrent
  validate_with e (pos cap) =
      with_scope e cap (reconcile_deprecated_management e) (resolve_key_source e)

  -- An entry goes through its validators in the order in which they are declared.
  unfoldable pub validate_key : KeyEntry → Validated ApiKeyConfig
  unfolding validate_with
  validate_key e = validate_with e e.max_concurrent

  -- The entries of `auth.keys`; one that is refused refuses them all.
  unfoldable pub validate_keys : List KeyEntry → Validated (List ApiKeyConfig)
  unfolding with_key
  validate_keys [] = valid []
  validate_keys (e ∷ es) = with_key (validate_key e) (validate_keys es)
