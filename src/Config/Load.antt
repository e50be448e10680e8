-- ===== src/Config/Load.antt =====
-- `load_config` of src/ollama_queue_proxy/config.py.
pub mod Precedence
use ollama_queue_proxy.Prelude.{
  ℕ, Bool, true, false, Option, none, some, List, [], ◌∷◌, codes, codes_eq, is_empty, ◌==◌,
  if◌then◌else◌,
}
use ollama_queue_proxy.Config.Env.{
  Codes, Raw, flag, number, text, other_value, table, Table, empty, entry, path_named,
  apply_env_overrides,
}

-- What reading a path and `yaml.safe_load` come to: `unreadable` is any exception but the two that
-- are caught, such as a PermissionError.
pub data FileRead : Type 0 where
  missing unparsable unreadable : FileRead
  parsed : Raw → FileRead

-- A configuration, one of the three "FATAL" exits, or an exception that nothing catches.
pub data LoadOutcome {ℓ} (A : Type ℓ) : Type ℓ where
  loaded : A → LoadOutcome A
  not_found parse_error invalid traceback : LoadOutcome A

-- `os.environ.get`
unfoldable pub environ_get : Codes → List (Codes × Codes) → Option Codes
environ_get name [] = none
environ_get name ((n, value) ∷ environ) =
    let later = environ_get name environ in if codes_eq n name then some value else later

abbrev pub or_text : Option Codes → Codes → Codes
or_text none other = other
or_text (some s) other = if is_empty s then other else s

-- `path or os.environ.get("OQP_CONFIG", "./config.yml")`
unfoldable pub config_path : Option Codes → List (Codes × Codes) → Codes
unfolding environ_get
config_path path environ =
    let default = elim (environ_get (codes "OQP_CONFIG") environ) as (λ o. Codes) [
      | none ↦ codes "./config.yml"
      | some s ↦ s
    ] in
    or_text path default

-- Some variable names a path.
unfoldable pub names_path : List (Codes × Codes) → Bool
names_path [] = false
names_path ((name, value) ∷ environ) =
    let later = names_path environ in elim (path_named name) [ none ↦ later | some path ↦ true ]

-- `_apply_env_overrides` on a value that is no dictionary, which no path can be written into.
unfoldable pub apply_to_other : List (Codes × Codes) → Raw → Option Raw
unfolding names_path
apply_to_other environ raw = if names_path environ then none else some raw

abbrev pub as_raw : Option Table → Option Raw
as_raw none = none
as_raw (some t) = some (table t)

-- `validate` is `Config.model_validate`.
unfoldable pub validated {ℓ} :
    {A : Type ℓ} → (validate : Raw → Option A) → Option Raw → LoadOutcome A
validated validate none = traceback
validated validate (some raw) = elim (validate raw) [ none ↦ invalid | some config ↦ loaded config ]

-- `is_true` is the truth value of a list, a float or null.
module _ (is_true : ℕ → Bool) where
  -- `raw or {}`, then the variables; `none` is an exception.
  unfoldable pub overridden : List (Codes × Codes) → Raw → Option Raw
  unfolding apply_env_overrides apply_to_other
  overridden environ (table t) = as_raw (apply_env_overrides environ (some t))
  overridden environ (flag true) = apply_to_other environ (flag true)
  overridden environ (flag false) = as_raw (apply_env_overrides environ (some empty))
  overridden environ (number n) =
      if n == 0
      then as_raw (apply_env_overrides environ (some empty))
      else apply_to_other environ (number n)
  overridden environ (text s) =
      if is_empty s
      then as_raw (apply_env_overrides environ (some empty))
      else apply_to_other environ (text s)
  overridden environ (other_value i) =
      if is_true i
      then apply_to_other environ (other_value i)
      else as_raw (apply_env_overrides environ (some empty))

  module _ {ℓ} {A : Type ℓ} (validate : Raw → Option A) where
    -- Past the reading of the file.
    unfoldable pub after_read : List (Codes × Codes) → FileRead → LoadOutcome A
    unfolding overridden validated
    after_read environ missing = not_found
    after_read environ unparsable = parse_error
    after_read environ unreadable = traceback
    after_read environ (parsed raw) = validated validate (overridden environ raw)

    unfoldable pub load_config :
        (read : Codes → FileRead) → List (Codes × Codes) → Option Codes → LoadOutcome A
    unfolding config_path after_read
    load_config read environ path = after_read environ (read (config_path path environ))
