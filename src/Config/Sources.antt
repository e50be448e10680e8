-- ===== src/Config/Sources.antt =====
-- Which entries of `auth.keys` make a key, and which key.
use mathlib.Core.List.{Mem, mem-cons, not-mem-nil}
use mathlib.Core.Logic.Or
use ollama_queue_proxy.Proxy.Names.{Bool_prop}
use ollama_queue_proxy.Prelude.{
  ℕ, ◌≡◌, ◌≢◌, ◌↔◌, ◌⊎◌, refl, sym, subst, ap, ◌∙◌, String, true, false, Option, none, some, List,
  [], ◌∷◌, All, Dict, arith,
}
use ollama_queue_proxy.Http.{Request}
use ollama_queue_proxy.Scope.{Scope, inference, management}
use ollama_queue_proxy.Config.{ApiKeyConfig, AuthConfig}
use ollama_queue_proxy.Auth.{init, authenticate, provided_key, returns, key}
use ollama_queue_proxy.Auth.Keys.{authenticate_sound}
use ollama_queue_proxy.Config.Keys.{
  ℤ, pos, negsuc, KeyEntry, Validated, valid, refused, strip, is_blank, not_blank,
  reconcile_deprecated_management, from_env, from_file, resolve, resolve_key_source, with_scope,
  validate_with, validate_key, with_key, validate_keys,
}

not_blank_exact : (k v : String) → (not_blank k ≡ valid v) ↔ ((k ≡ v) × (is_blank v ≡ false))
unfolding not_blank
not_blank_exact k v = (λ e. (ground arith, ground arith), λ h. ground arith)

from_env_exact :
    (o : Option String) (v : String)
    → (from_env o ≡ valid v) ↔ ((o ≡ some v) × (is_blank v ≡ false))
from_env_exact none v = (λ e. cc, λ h. cc)
from_env_exact (some k) v =
    let (there, back) = not_blank_exact k v in
    (λ e. (ap some (there e).0, (there e).1), λ h. back (cc, h.1))

from_file_exact :
    (o : Option String) (v : String)
    → (from_file o ≡ valid v)
      ↔ (((content : String) × (o ≡ some content) × (strip content ≡ v)) × (is_blank v ≡ false))
from_file_exact none v = (λ e. cc, λ h. cc)
from_file_exact (some t) v =
    let (there, back) = not_blank_exact (strip t) v in
    (
      λ e. ((t, refl, (there e).0), (there e).1),
      λ h. let (content, e, same) = h.0 in back (cc, h.1),
    )

with_scope_exact :
    (e : KeyEntry) (cap : ℕ) (s : Validated Scope) (k : Validated String) (cfg : ApiKeyConfig)
    → (with_scope e cap s k ≡ valid cfg) ↔ (
        (s ≡ valid cfg.scope)
        × (k ≡ valid cfg.key)
        × (cfg.max_concurrent ≡ cap)
        × (cfg.client_id ≡ e.client_id)
        × (cfg.max_priority ≡ e.max_priority))
unfolding with_scope
with_scope_exact e cap (refused x) k cfg = (λ h. cc, λ h. cc)
with_scope_exact e cap (valid s) (refused x) cfg = (λ h. cc, λ h. cc)
with_scope_exact e cap (valid s) (valid k) cfg = (λ h. ground arith, λ h. ground arith)

abbrev IsFilled : ApiKeyConfig → Type 0
IsFilled c = is_blank c.key ≡ false

IsFilled-Mem :
    (keys : List ApiKeyConfig) (c : ApiKeyConfig) → All IsFilled keys → Mem c keys → IsFilled c
IsFilled-Mem [] c h m = absurd (not-mem-nil m)
IsFilled-Mem (k ∷ ks) c h m =
    Or.elim (Bool_prop _ _) (mem-cons.0 m) (λ e. subst IsFilled (sym e) h.0)
      (λ later. IsFilled-Mem ks c h.1 later)

valid_eq : {A : Type 0} (a b : A) → valid a ≡ valid b → a ≡ b
valid_eq a b e = cc

module _ (environment : String → Option String) (read_text : String → Option String) where
  -- `v` is what the only source that is given says.
  abbrev pub SaidBy : Option String → Option String → Option String → String → Type 0
  SaidBy (some k) none none v = k ≡ v
  SaidBy none (some name) none v = environment name ≡ some v
  SaidBy none none (some path) v =
      (content : String) × (read_text path ≡ some content) × (strip content ≡ v)
  SaidBy _ _ _ v = ⊥

  -- The scope that an entry grants: the deprecated flag grants management, and contradicts any other
  -- scope that is written.
  abbrev pub Grants : KeyEntry → Scope → Type 0
  Grants e s = elim e.management_flag [
    | true ↦ (s ≡ management) × ((e.scope ≡ none) ⊎ (e.scope ≡ some management))
    | false ↦ (e.scope ≡ some s) ⊎ ((e.scope ≡ none) × (s ≡ inference))
  ]

  resolve_exact :
      (k n f : Option String) (v : String)
      → (resolve environment read_text k n f ≡ valid v) ↔ (SaidBy k n f v × (is_blank v ≡ false))
  unfolding resolve
  resolve_exact none none none v = (λ e. cc, λ h. absurd (h.0))
  resolve_exact (some k) none none v = not_blank_exact k v
  resolve_exact none (some n) none v = from_env_exact (environment n) v
  resolve_exact none none (some f) v = from_file_exact (read_text f) v
  resolve_exact (some k) (some n) f v = (λ e. cc, λ h. absurd (h.0))
  resolve_exact (some k) none (some f) v = (λ e. cc, λ h. absurd (h.0))
  resolve_exact none (some n) (some f) v = (λ e. cc, λ h. absurd (h.0))

  reconcile_exact :
      (e : KeyEntry) (s : Scope) → (reconcile_deprecated_management e ≡ valid s) ↔ Grants e s
  unfolding reconcile_deprecated_management
  reconcile_exact e s = (λ h. ground arith, λ h. ground arith)

  validate_with_exact :
      (e : KeyEntry) (z : ℤ) (cfg : ApiKeyConfig)
      → (validate_with environment read_text e z ≡ valid cfg) ↔ (
          SaidBy e.key e.key_env e.key_file cfg.key
          × (is_blank cfg.key ≡ false)
          × Grants e cfg.scope
          × (z ≡ pos cfg.max_concurrent)
          × (cfg.client_id ≡ e.client_id)
          × (cfg.max_priority ≡ e.max_priority))
  unfolding validate_with resolve_key_source
  validate_with_exact e (negsuc n) cfg = (λ h. cc, λ h. cc)
  validate_with_exact e (pos cap) cfg =
      let (there, back) =
        with_scope_exact e cap (reconcile_deprecated_management e)
          (resolve environment read_text e.key e.key_env e.key_file) cfg in
      let key = resolve_exact e.key e.key_env e.key_file cfg.key in
      let scope = reconcile_exact e cfg.scope in
      (
        λ h.
            let (s, k, c, i, p) = there h in
            let (said, filled) = key.0 k in (said, filled, scope.0 s, ap pos (sym c), i, p),
        λ (said, filled, g, c, i, p). back (scope.1 g, key.1 (said, filled), cc, i, p),
      )

  -- An entry of `auth.keys` is accepted as a key exactly where one source alone is given and says the
  -- key, stripped if it is a file; the key is not blank; the scope is the one that is written,
  -- management for the deprecated flag (which no other scope contradicts), and inference by default;
  -- the cap is not negative; and the rest is taken over.
  pub validate_key_exact :
      (e : KeyEntry) (cfg : ApiKeyConfig)
      → (validate_key environment read_text e ≡ valid cfg) ↔ (
          SaidBy e.key e.key_env e.key_file cfg.key
          × (is_blank cfg.key ≡ false)
          × Grants e cfg.scope
          × (e.max_concurrent ≡ pos cfg.max_concurrent)
          × (cfg.client_id ≡ e.client_id)
          × (cfg.max_priority ≡ e.max_priority))
  unfolding validate_key
  validate_key_exact e cfg = validate_with_exact e e.max_concurrent cfg

  with_key-filled :
      (k : Validated ApiKeyConfig) (rest : Validated (List ApiKeyConfig)) (keys : List ApiKeyConfig)
      → with_key k rest ≡ valid keys
      → (c : ApiKeyConfig) × (cs : List ApiKeyConfig) × (k ≡ valid c)
        × (rest ≡ valid cs)
        × (keys ≡ c ∷ cs)
  unfolding with_key
  with_key-filled (refused x) rest keys h = absurd (cc)
  with_key-filled (valid k) (refused x) keys h = absurd (cc)
  with_key-filled (valid k) (valid ks) keys h = (k, ks, refl, refl, cc)

  -- The key of an accepted entry is not blank.
  validate_keys-IsFilled :
      (entries : List KeyEntry) (keys : List ApiKeyConfig)
      → validate_keys environment read_text entries ≡ valid keys
      → All IsFilled keys
  unfolding validate_keys
  validate_keys-IsFilled [] keys h = subst (All IsFilled) (valid_eq [] keys h) tt
  validate_keys-IsFilled (e ∷ es) keys h =
      let (k, ks, first, others, same) =
        with_key-filled (validate_key environment read_text e)
          (validate_keys environment read_text es) keys h in
      subst (All IsFilled) (sym same)
        (((validate_key_exact e k).0 first).1, validate_keys-IsFilled es ks others)

  -- With the keys of an accepted configuration, a Bearer token that is empty or all white space
  -- authenticates nobody.
  pub blank_token_denied :
      (entries : List KeyEntry) (config : AuthConfig) (failures : Dict (List ℕ)) (now : ℕ)
      (r : Request) (token : String) (cfg : ApiKeyConfig)
      → validate_keys environment read_text entries ≡ valid config.keys
      → provided_key r ≡ some token
      → is_blank token ≡ true
      → (authenticate now r (record (init config) { failures = failures })).0 ≢ returns (key cfg)
  blank_token_denied entries config failures now r token cfg accepted given blank passes =
      let (same, configured) = authenticate_sound config failures now r cfg passes in
      let filled =
        IsFilled-Mem config.keys cfg (validate_keys-IsFilled entries config.keys accepted)
          configured in
      let token_key : token ≡ cfg.key = cc in cc (sym blank ∙ ap is_blank token_key ∙ filled)
