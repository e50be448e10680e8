-- ===== src/Config/Load/Precedence.antt =====
-- Which of the file and the environment a loaded configuration follows.
use ollama_queue_proxy.Prelude.{
  ℕ, ◌≡◌, refl, ap, ◌∙◌, subst, Bool, true, false, Option, none, some, List, [], ◌∷◌, ◌++◌, All,
  Option-cases, Bool-cases, inl, inr, is_empty, ◌==◌, arith,
}
use ollama_queue_proxy.Config.Env.{
  Codes, Raw, flag, number, text, other_value, table, Table, empty, coerce, path_named,
  apply_env_overrides,
}
use ollama_queue_proxy.Config.Overrides.{lookup_path, Apart, apply_env_overrides_exact}
use ollama_queue_proxy.Config.Load.{
  FileRead, missing, unparsable, unreadable, parsed, loaded, config_path, names_path, as_raw,
  apply_to_other, overridden, validated, after_read, load_config,
}

-- The dictionary that a file stands for: its own, or none where it has a value that is false.
abbrev pub file_table : Raw → Table
file_table (table t) = t
file_table (flag b) = empty
file_table (number n) = empty
file_table (text s) = empty
file_table (other_value i) = empty

names_path-append :
    (before later : List (Codes × Codes)) (name value part : Codes) (path : List Codes)
    → path_named name ≡ some (part ∷ path)
    → names_path (before ++ (name, value) ∷ later) ≡ true
unfolding names_path
names_path-append [] later name value part path p = ground arith
names_path-append ((n, w) ∷ before) later name value part path p =
    elim (Option-cases (path_named n)) [
      | inl e ↦ ground (arith, names_path-append before later name value part path p)
      | inr (q, e) ↦ ground arith
    ]

-- Of what the variables are written into.
abbrev Written : List (Codes × Codes) → Table → Raw → Type 0
Written environ t r = (u : Table) × (r ≡ table u) × (apply_env_overrides environ (some t) ≡ some u)

as_raw-Written :
    (environ : List (Codes × Codes)) (t : Table) (o : Option Table) (r : Raw)
    → apply_env_overrides environ (some t) ≡ o
    → as_raw o ≡ some r
    → Written environ t r
as_raw-Written environ t none r h e = cc
as_raw-Written environ t (some u) r h e = (u, cc, h)

apply_to_other-none :
    (environ : List (Codes × Codes)) (raw r : Raw)
    → names_path environ ≡ true
    → apply_to_other environ raw ≡ some r
    → ⊥
unfolding apply_to_other
apply_to_other-none environ raw r n e = ground arith

-- With a variable that names a path, only a dictionary comes through.
overridden-Written :
    (is_true : ℕ → Bool) (environ : List (Codes × Codes)) (raw r : Raw)
    → names_path environ ≡ true
    → overridden is_true environ raw ≡ some r
    → Written environ (file_table raw) r
unfolding overridden
overridden-Written is_true environ (table t) r n e = as_raw-Written environ t _ r refl e
overridden-Written is_true environ (flag true) r n e =
    absurd (apply_to_other-none environ (flag true) r n e)
overridden-Written is_true environ (flag false) r n e = as_raw-Written environ empty _ r refl e
overridden-Written is_true environ (number i) r n e = elim (Bool-cases (i == 0)) [
  | inl z ↦ as_raw-Written environ empty _ r refl (rw z at e)
  | inr z ↦ absurd (apply_to_other-none environ (number i) r n (rw z at e))
]
overridden-Written is_true environ (text s) r n e = elim (Bool-cases (is_empty s)) [
  | inl z ↦ as_raw-Written environ empty _ r refl (rw z at e)
  | inr z ↦ absurd (apply_to_other-none environ (text s) r n (rw z at e))
]
overridden-Written is_true environ (other_value i) r n e = elim (Bool-cases (is_true i)) [
  | inl z ↦ absurd (apply_to_other-none environ (other_value i) r n (rw z at e))
  | inr z ↦ as_raw-Written environ empty _ r refl (rw z at e)
]

module _ {ℓ} {A : Type ℓ} (is_true : ℕ → Bool) (validate : Raw → Option A) where
  loaded_eq : (a b : A) → loaded a ≡ loaded b → a ≡ b
  loaded_eq a b e = cc

  validated-loaded :
      (o : Option Raw) (config : A)
      → validated validate o ≡ loaded config
      → (r : Raw) × (o ≡ some r) × (validate r ≡ some config)
  unfolding validated
  validated-loaded none config e = cc
  validated-loaded (some r) config e = elim (Option-cases (validate r)) [
    | inl h ↦ absurd (ground (arith, h))
    | inr (c, h) ↦ (r, refl, h ∙ ap some (loaded_eq c config (rw (h, validated) at e)))
  ]

  after_read-loaded :
      (environ : List (Codes × Codes)) (f : FileRead) (config : A)
      → after_read is_true validate environ f ≡ loaded config
      → (raw r : Raw) × (f ≡ parsed raw)
        × (overridden is_true environ raw ≡ some r)
        × (validate r ≡ some config)
  unfolding after_read
  after_read-loaded environ missing config e = cc
  after_read-loaded environ unparsable config e = cc
  after_read-loaded environ unreadable config e = cc
  after_read-loaded environ (parsed raw) config e =
      let (r, over, valid) = validated-loaded (overridden is_true environ raw) config e in
      (raw, r, refl, over, valid)

  -- A configuration that is loaded where a variable of the environment names a path, and no later variable
  -- names one that begins or continues it: what was validated is a dictionary that has the variable's
  -- text at that path, read as a flag, a number or a text, whatever the file has there; and at every
  -- path that no variable begins, continues or names, what the file has, which counts as an empty
  -- dictionary where it is false. The file is the one that the caller names, or `OQP_CONFIG` does,
  -- or `./config.yml`.
  pub load_config_overrides :
      (read : Codes → FileRead) (before later : List (Codes × Codes)) (name value part : Codes)
      (rest : List Codes) (path : Option Codes) (config : A)
      → let environ = before ++ (name, value) ∷ later in
        path_named name ≡ some (part ∷ rest)
        → All (Apart (part ∷ rest)) later
        → load_config is_true validate read environ path ≡ loaded config
        → (raw : Raw) × (t : Table) × (read (config_path path environ) ≡ parsed raw)
          × (validate (table t) ≡ some config)
          × (lookup_path (part ∷ rest) (table t) ≡ some (coerce value))
          × ((other : List Codes)
              → All (Apart other) environ
              → lookup_path other (table t) ≡ lookup_path other (table (file_table raw)))
  load_config_overrides read before later name value part rest path config p a e =
      let environ = before ++ (name, value) ∷ later in
      let (raw, r, found, over, valid) =
        after_read-loaded environ (read (config_path path environ)) config
          (unfold load_config in e) in
      let (t, same, applied) =
        overridden-Written is_true environ raw r
          (names_path-append before later name value part rest p) over in
      let (written, kept) =
        apply_env_overrides_exact before later name value part rest (file_table raw) t p a
          applied in
      (raw, t, found, subst (λ x. validate x ≡ some config) same valid, written, kept)
