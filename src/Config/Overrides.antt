-- ===== src/Config/Overrides.antt =====
-- What a variable of the environment changes in the configuration, and what it leaves.
use ollama_queue_proxy.Prelude.{
  ◌≡◌, ◌⊎◌, inl, inr, refl, sym, ap, ◌∙◌, subst, false, Option, none, some, List, [], ◌∷◌, ◌++◌,
  All, codes_eq, codes_eq_self, codes_eq_sound, arith, if◌then◌else◌, Option-cases,
}
use ollama_queue_proxy.Config.Env.{
  Codes, Raw, flag, number, text, other_value, table, Table, empty, entry, find, write, descend,
  in_table, set_path, coerce, path_named, override, apply_env_overrides,
}

-- The value at a path.
unfoldable pub lookup_path : List Codes → Raw → Option Raw
lookup_path [] r = some r
lookup_path (part ∷ path) (table t) = elim (find part t) [
  | none ↦ none
  | some r ↦ lookup_path path r
]
lookup_path (part ∷ path) (flag b) = none
lookup_path (part ∷ path) (number n) = none
lookup_path (part ∷ path) (text s) = none
lookup_path (part ∷ path) (other_value i) = none

-- Two paths part, with neither a beginning of the other.
abbrev pub Diverge : List Codes → List Codes → Type 0
Diverge (a ∷ p) (b ∷ q) = (codes_eq a b ≡ false) ⊎ ((a ≡ b) × Diverge p q)
Diverge [] q = ⊥
Diverge (a ∷ p) [] = ⊥

find-write :
    (k j : Codes) (v : Raw) (t : Table)
    → find j (write k v t) ≡ (if codes_eq k j then some v else find j t)
unfolding find write
find-write k j v empty = refl
find-write k j v (entry i w t) = ground (
  arith,
  codes_eq_sound i k,
  codes_eq_sound i j,
  codes_eq_sound k j,
  codes_eq_self k,
  codes_eq_self i,
  find-write k j v t,
)

lookup_path-write :
    (k j : Codes) (path : List Codes) (v : Raw) (t : Table)
    → lookup_path (j ∷ path) (table (write k v t))
      ≡ (if codes_eq k j then lookup_path path v else lookup_path (j ∷ path) (table t))
unfolding lookup_path
lookup_path-write k j path v t = ground (arith, find-write k j v t)

-- The dictionary on the way, before and after.
set_path_inner :
    (part next : Codes) (path : List Codes) (v : Raw) (t t' : Table)
    → set_path (part ∷ next ∷ path) v t ≡ some t'
    → (sub : Table) × (sub' : Table) × (descend (find part t) ≡ some sub)
      × (set_path (next ∷ path) v sub ≡ some sub')
      × (t' ≡ write part (table sub') t)
unfolding set_path in_table
set_path_inner part next path v t t' h = elim (Option-cases (descend (find part t))) [
  | inl e ↦ absurd (ground arith)
  | inr (sub, e) ↦ elim (Option-cases (set_path (next ∷ path) v sub)) [
    | inl e' ↦ absurd (ground arith)
    | inr (sub', e') ↦ (sub, sub', e, e', ground arith)
  ]
]

lookup_path-empty :
    (part : Codes) (path : List Codes) → lookup_path (part ∷ path) (table empty) ≡ none
unfolding lookup_path find
lookup_path-empty part path = refl

in_sub :
    (o : Option Raw) (next : Codes) (path : List Codes) (sub : Table)
    → descend o ≡ some sub
    → (elim o as (λ x. Option Raw) [ none ↦ none | some r ↦ lookup_path (next ∷ path) r ])
      ≡ lookup_path (next ∷ path) (table sub)
unfolding lookup_path find
in_sub none next path sub h =
    let e : empty ≡ sub = cc in subst (λ u. none ≡ lookup_path (next ∷ path) (table u)) e refl
in_sub (some (table u)) next path sub h =
    let e : u ≡ sub = cc in ap (λ s. lookup_path (next ∷ path) (table s)) e
in_sub (some (flag b)) next path sub h = cc
in_sub (some (number n)) next path sub h = cc
in_sub (some (text s)) next path sub h = cc
in_sub (some (other_value i)) next path sub h = cc

-- A path through a dictionary, or through one that is not there yet.
lookup_path-descend :
    (part next : Codes) (path : List Codes) (t sub : Table)
    → descend (find part t) ≡ some sub
    → lookup_path (part ∷ next ∷ path) (table t) ≡ lookup_path (next ∷ path) (table sub)
lookup_path-descend part next path t sub h =
    unfold lookup_path in in_sub (find part t) next path sub h

lookup_path_here : (v : Raw) → lookup_path [] v ≡ some v
unfolding lookup_path
lookup_path_here v = refl

set_path_written :
    (part : Codes) (path : List Codes) (v : Raw) (t t' : Table)
    → set_path (part ∷ path) v t ≡ some t'
    → lookup_path (part ∷ path) (table t') ≡ some v
unfolding set_path
set_path_written part [] v t t' h =
    ground (arith, lookup_path-write part part [] v t, codes_eq_self part, lookup_path_here v)
set_path_written part (next ∷ path) v t t' h =
    let (sub, sub', e, inner, same) = set_path_inner part next path v t t' h in
    let ih = set_path_written next path v sub sub' inner in
    ground (arith, lookup_path-write part part (next ∷ path) (table sub') t, codes_eq_self part)

set_path_kept :
    (path other : List Codes) (v : Raw) (t t' : Table)
    → set_path path v t ≡ some t'
    → Diverge path other
    → lookup_path other (table t') ≡ lookup_path other (table t)
unfolding set_path
set_path_kept [] other v t t' h d = absurd d
set_path_kept (a ∷ p) [] v t t' h d = absurd d
set_path_kept (a ∷ []) (b ∷ q) v t t' h (inl n) = ground (arith, lookup_path-write a b q v t)
set_path_kept (a ∷ []) (b ∷ q) v t t' h (inr (e, d)) = absurd d
set_path_kept (a ∷ next ∷ p) (b ∷ q) v t t' h (inl n) =
    let (sub, sub', e, inner, same) = set_path_inner a next p v t t' h in
    ground (arith, lookup_path-write a b q (table sub') t)
set_path_kept (a ∷ next ∷ p) (b ∷ []) v t t' h (inr (e, d)) = absurd d
set_path_kept (a ∷ next ∷ p) (b ∷ c ∷ q) v t t' h (inr (e, d)) =
    let (sub, sub', there, inner, same) = set_path_inner a next p v t t' h in
    ground (
      arith,
      set_path_kept (next ∷ p) (c ∷ q) v sub sub' inner d,
      lookup_path-write a b (c ∷ q) (table sub') t,
      lookup_path-descend a c q t sub there,
      codes_eq_self a,
    )

-- The variables that come later name no path that meets `path`.
abbrev pub Apart : List Codes → Codes × Codes → Type 0
Apart path (name, value) = elim (path_named name) [ none ↦ Unit | some p ↦ Diverge p path ]

some_eq : (t u : Table) → some t ≡ some u → t ≡ u
some_eq t u e = cc

apply-none : (environ : List (Codes × Codes)) → apply_env_overrides environ none ≡ none
unfolding apply_env_overrides
apply-none [] = refl
apply-none (x ∷ environ) = refl

-- The table after the first variable, where the rest goes through.
apply-cons :
    (name value : Codes) (environ : List (Codes × Codes)) (t t' : Table)
    → apply_env_overrides ((name, value) ∷ environ) (some t) ≡ some t'
    → (u : Table) × (override (path_named name) value t ≡ some u)
      × (apply_env_overrides environ (some u) ≡ some t')
unfolding apply_env_overrides
apply-cons name value environ t t' h = elim (Option-cases (override (path_named name) value t)) [
  | inl e ↦ absurd (ground (arith, apply-none environ))
  | inr (u, e) ↦ (u, e, ground arith)
]

override-kept :
    (o : Option (List Codes)) (value : Codes) (path : List Codes) (t u : Table)
    → override o value t ≡ some u
    → (elim o as (λ x. Type 0) [ none ↦ Unit | some p ↦ Diverge p path ])
    → lookup_path path (table u) ≡ lookup_path path (table t)
unfolding override
override-kept none value path t u h d = ap (λ s. lookup_path path (table s)) (sym (some_eq t u h))
override-kept (some p) value path t u h d = set_path_kept p path (coerce value) t u h d

apply-kept :
    (environ : List (Codes × Codes)) (path : List Codes) (t t' : Table)
    → apply_env_overrides environ (some t) ≡ some t'
    → All (Apart path) environ
    → lookup_path path (table t') ≡ lookup_path path (table t)
unfolding apply_env_overrides
apply-kept [] path t t' h a = ap (λ s. lookup_path path (table s)) (sym (some_eq t t' h))
apply-kept ((name, value) ∷ environ) path t t' h a =
    let (u, first, rest) = apply-cons name value environ t t' h in
    apply-kept environ path u t' rest a.1 ∙ override-kept (path_named name) value path t u first a.0

last_wins :
    (before later : List (Codes × Codes)) (name value part : Codes) (path : List Codes)
    (t t' : Table)
    → path_named name ≡ some (part ∷ path)
    → All (Apart (part ∷ path)) later
    → apply_env_overrides (before ++ (name, value) ∷ later) (some t) ≡ some t'
    → lookup_path (part ∷ path) (table t') ≡ some (coerce value)
unfolding override
last_wins [] later name value part path t t' p a h =
    let (u, first, rest) = apply-cons name value later t t' h in
    let set : set_path (part ∷ path) (coerce value) t ≡ some u = rw p at first in
    apply-kept later (part ∷ path) u t' rest a ∙ set_path_written part path (coerce value) t u set
last_wins ((n, w) ∷ before) later name value part path t t' p a h =
    let (u, first, rest) = apply-cons n w (before ++ (name, value) ∷ later) t t' h in
    last_wins before later name value part path u t' p a rest

-- Where the variables of the environment go into the configuration without an error: the value at the
-- path that a variable names is its text, read as a flag, a number or a text, if no later variable
-- names a path that begins or continues it; and every other value stays as the file says, if no
-- variable names a path that begins or continues its own.
pub apply_env_overrides_exact :
    (before later : List (Codes × Codes)) (name value part : Codes) (path : List Codes)
    (t t' : Table)
    → path_named name ≡ some (part ∷ path)
    → All (Apart (part ∷ path)) later
    → apply_env_overrides (before ++ (name, value) ∷ later) (some t) ≡ some t'
    → (lookup_path (part ∷ path) (table t') ≡ some (coerce value))
      × ((other : List Codes)
          → All (Apart other) (before ++ (name, value) ∷ later)
          → lookup_path other (table t') ≡ lookup_path other (table t))
apply_env_overrides_exact before later name value part path t t' p a h = (
  last_wins before later name value part path t t' p a h,
  λ other apart. apply-kept (before ++ (name, value) ∷ later) other t t' h apart,
)
