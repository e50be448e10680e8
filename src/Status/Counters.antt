-- ===== src/Status/Counters.antt =====
-- The labels of the cache's counters, from src/ollama_queue_proxy/cache.py to the page of metrics.
use Prim.Native.String.append
use Prim.Native.String.{◌++◌ as text_append}
use Prim.Native.Char.{code}
use mathlib.Core.List.{append_assoc}
use ollama_queue_proxy.Prelude.{
  ◌≡◌, ◌↔◌, inl, inr, refl, sym, ap, ◌∙◌, String, Option, none, some, List, [], ◌∷◌, ◌++◌, codes,
  str_eq, ◌==◌, arith, Bool-cases, Option-cases, if◌then◌else◌,
}
use ollama_queue_proxy.Config.Env.{Codes}
use ollama_queue_proxy.Cache.{metric_key}
use ollama_queue_proxy.Status.Exposition.{Lacks}
use ollama_queue_proxy.Status.Metrics.{split_once, split_label}

codes-append : (s t : String) → codes (text_append s t) ≡ codes s ++ codes t
codes-append String.[] t = ap codes (append.nil t)
codes-append (String.◌∷◌ c s) t =
    ap codes (append.cons c s t) ∙ ap (λ l. code c ∷ l) (codes-append s t)

-- Who a counter counts for.
abbrev pub client_of : Option String → String
client_of none = "anon"
client_of (some c) = if str_eq c "" then "anon" else c

codes-metric_key :
    (client : Option String) (model endpoint : String)
    → codes (metric_key client model endpoint)
      ≡ codes (client_of client) ++ b',' ∷ (codes model ++ b',' ∷ codes endpoint)
unfolding metric_key
codes-metric_key client model endpoint =
    let o = client_of client in
    codes-append o (text_append "," (text_append model (text_append "," endpoint)))
    ∙ ap (λ l. codes o ++ l)
        (codes-append "," (text_append model (text_append "," endpoint))
          ∙ ap (λ l. b',' ∷ l)
              (codes-append model (text_append "," endpoint)
                ∙ ap (λ l. codes model ++ l) (codes-append "," endpoint)))

split_once-append :
    (a b : Codes) → (x : Codes) × (p : Codes) × (split_once (a ++ b',' ∷ b) ≡ some (x, p ++ b))
unfolding split_once
split_once-append [] b = ([], [], refl)
split_once-append (c ∷ a) b =
    let (x, p, e) = split_once-append a b in
    elim (Bool-cases (c == b',')) [
      | inl h ↦ ([], a ++ b',' ∷ [], ground (arith, append_assoc a (b',' ∷ []) b))
      | inr h ↦ (c ∷ x, p, ground (arith, e))
    ]

split_once-exact : (a b : Codes) → Lacks b',' a → split_once (a ++ b',' ∷ b) ≡ some (a, b)
unfolding split_once
split_once-exact [] b h = refl
split_once-exact (c ∷ a) b h = ground (arith, split_once-exact a b)

split_once-Lacks : (s a b : Codes) → split_once s ≡ some (a, b) → Lacks b',' a
unfolding split_once
split_once-Lacks [] a b h = cc
split_once-Lacks (c ∷ s) a b h = elim (Bool-cases (c == b',')) [
  | inl e ↦ ground arith
  | inr e ↦ elim (Option-cases (split_once s)) [
    | inl none_later ↦ absurd (ground arith)
    | inr ((x, y), later) ↦ ground (arith, split_once-Lacks s x y later)
  ]
]

-- The parts of a counter's label, as the page shows them.
abbrev pub parts_of : Option String → String → String → List Codes
parts_of client model endpoint = codes (client_of client) ∷ codes model ∷ codes endpoint ∷ []

split_label-two :
    (s rest a b c : Codes)
    → split_once s ≡ some (a, rest)
    → split_once rest ≡ some (b, c)
    → split_label s ≡ some (a ∷ b ∷ c ∷ [])
unfolding split_label
split_label-two s rest a b c h k = ground arith

two-split_label :
    (s a b c : Codes)
    → split_label s ≡ some (a ∷ b ∷ c ∷ [])
    → (rest : Codes) × (split_once s ≡ some (a, rest)) × (split_once rest ≡ some (b, c))
unfolding split_label
two-split_label s a b c h = elim (Option-cases (split_once s)) [
  | inl e ↦ absurd (ground arith)
  | inr ((x, rest), e) ↦ elim (Option-cases (split_once rest)) [
    | inl e' ↦ absurd (ground arith)
    | inr ((y, z), e') ↦ (rest, ground arith, ground arith)
  ]
]

-- Some parts there are, whatever the names are.
pub split_label-some :
    (client : Option String) (model endpoint : String)
    → (values : List Codes) × (split_label (codes (metric_key client model endpoint)) ≡ some values)
split_label-some client model endpoint =
    let label = codes-metric_key client model endpoint in
    let (x, p, first) =
      split_once-append (codes (client_of client)) (codes model ++ b',' ∷ codes endpoint) in
    let (y, q, second) = split_once-append (p ++ codes model) (codes endpoint) in
    let rest = p ++ (codes model ++ b',' ∷ codes endpoint) in
    (
      x ∷ y ∷ (q ++ codes endpoint) ∷ [],
      split_label-two (codes (metric_key client model endpoint)) rest x y (q ++ codes endpoint)
          (ap split_once label ∙ first)
          (ap split_once (sym (append_assoc p (codes model) (b',' ∷ codes endpoint))) ∙ second),
    )

-- A counter is shown with its client, its model and its endpoint exactly where neither the name of the
-- client nor that of the model has a comma: others are shown with parts of them in other places.
pub split_label-metric_key :
    (client : Option String) (model endpoint : String)
    → (split_label (codes (metric_key client model endpoint))
        ≡ some (parts_of client model endpoint))
      ↔ (Lacks b',' (codes (client_of client)) × Lacks b',' (codes model))
split_label-metric_key client model endpoint =
    let key = codes (metric_key client model endpoint) in
    let label = codes-metric_key client model endpoint in
    (
      λ h.
          let (rest, first, second) =
            two-split_label key (codes (client_of client)) (codes model) (codes endpoint) h in
          (
            split_once-Lacks key (codes (client_of client)) rest first,
            split_once-Lacks rest (codes model) (codes endpoint) second,
          ),
      λ (no_comma, none_here).
          split_label-two key (codes model ++ b',' ∷ codes endpoint) (codes (client_of client))
            (codes model) (codes endpoint)
            (ap split_once label
              ∙ split_once-exact (codes (client_of client)) (codes model ++ b',' ∷ codes endpoint)
                  no_comma)
            (split_once-exact (codes model) (codes endpoint) none_here),
    )
