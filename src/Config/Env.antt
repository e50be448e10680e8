-- ===== src/Config/Env.antt =====
-- `_apply_env_overrides` of src/ollama_queue_proxy/config.py: environment variables written over the
-- configuration file. Names and values are code points; they are taken to be ASCII.
use ollama_queue_proxy.Prelude.{
  ℕ, ◌+◌, ◌-◌, ◌*◌, Bool, true, false, not, ◌&&◌, Option, none, some, List, [], ◌∷◌, codes,
  codes_eq, lower, leb, any, all, is_empty, ◌==◌, if◌then◌else◌,
}

abbrev pub Codes : Type 0
Codes = List ℕ

-- The raw configuration, as `yaml.safe_load` makes it: `other_value` is a list, a float or null. A
-- table is a dictionary, in insertion order.
mutual
  pub data Raw : Type 0 where
    flag : Bool → Raw
    number : ℕ → Raw
    text : Codes → Raw
    other_value : ℕ → Raw
    table : Table → Raw

  pub data Table : Type 0 where
    empty : Table
    entry : Codes → Raw → Table → Table

unfoldable pub find : Codes → Table → Option Raw
find k empty = none
find k (entry j v t) = let later = find k t in if codes_eq j k then some v else later

unfoldable pub write : Codes → Raw → Table → Table
write k v empty = entry k v empty
write k v (entry j w t) =
    let later = write k v t in if codes_eq j k then entry j v t else entry j w later

-- `startswith(prefix)`, with what follows the prefix.
unfoldable pub after_prefix : Codes → Codes → Option Codes
after_prefix [] s = some s
after_prefix (c ∷ p) [] = none
after_prefix (c ∷ p) (d ∷ s) = let rest = after_prefix p s in if c == d then rest else none

unfoldable pub in_front : ℕ → List Codes → List Codes
in_front c [] = (c ∷ []) ∷ []
in_front c (part ∷ parts) = (c ∷ part) ∷ parts

-- `split("__")`
unfoldable pub split_parts : Codes → List Codes
unfolding in_front
split_parts [] = [] ∷ []
split_parts (c ∷ []) = (c ∷ []) ∷ []
split_parts (c ∷ d ∷ s) =
    let next = split_parts s in
    let here = in_front c (split_parts (d ∷ s)) in
    if c == b'_' && d == b'_' then [] ∷ next else here

abbrev pub digit : ℕ → Bool
digit c = leb b'0' c && leb c b'9'

-- `isdigit`
abbrev pub is_digits : Codes → Bool
is_digits s = not (is_empty s) && all digit s

-- `int`, on digits.
unfoldable pub to_int : ℕ → Codes → ℕ
to_int n [] = n
to_int n (c ∷ s) = to_int (n * 10 + (c - b'0')) s

-- "Attempt type coercion for booleans and integers".
unfoldable pub coerce : Codes → Raw
unfolding to_int
coerce value =
    if codes_eq (lower value) (codes "true")
    then flag true
    else if codes_eq (lower value) (codes "false")
    then flag false
    else if is_digits value
    then number (to_int 0 value)
    else text value

-- `setdefault(part, {})`, and `none` is the exception for a value on the way that is no dictionary.
abbrev pub descend : Option Raw → Option Table
descend none = some empty
descend (some (table sub)) = some sub
descend (some (flag b)) = none
descend (some (number n)) = none
descend (some (text s)) = none
descend (some (other_value i)) = none

-- The dictionary with a part written again.
unfoldable pub in_table : Codes → Table → Option Table → Option Table
in_table part t none = none
in_table part t (some sub) = some (write part (table sub) t)

-- `target = target.setdefault(part, {})` down to the last part, which is written.
unfoldable pub set_path : List Codes → Raw → Table → Option Table
unfolding write find in_table
set_path [] v t = some t
set_path (leaf ∷ []) v t = some (write leaf v t)
set_path (part ∷ next ∷ path) v t = elim (descend (find part t)) [
  | none ↦ none
  | some sub ↦ in_table part t (set_path (next ∷ path) v sub)
]

-- The path that a variable names, if it names one: a list index anywhere makes it ignored.
unfoldable pub path_named : Codes → Option (List Codes)
unfolding after_prefix split_parts
path_named name = elim (after_prefix (codes "OQP_") name) [
  | none ↦ none
  | some rest ↦
      (let parts = split_parts (lower rest) in if any is_digits parts then none else some parts)
]

unfoldable pub override : Option (List Codes) → Codes → Table → Option Table
unfolding set_path coerce
override none value t = some t
override (some path) value t = set_path path (coerce value) t

-- The loop over `os.environ.items()`.
unfoldable pub apply_env_overrides : List (Codes × Codes) → Option Table → Option Table
unfolding override path_named
apply_env_overrides [] t = t
apply_env_overrides (x ∷ environ) none = none
apply_env_overrides ((name, value) ∷ environ) (some t) =
    apply_env_overrides environ (override (path_named name) value t)
