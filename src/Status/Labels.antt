-- ===== src/Status/Labels.antt =====
-- Lines of the Prometheus text format, as src/ollama_queue_proxy/routes/status.py writes them.
use ollama_queue_proxy.Prelude.{
  ℕ, zero, suc, ◌+◌, ◌/◌, ◌%◌, true, false, List, [], ◌∷◌, ◌++◌, codes, ltb, ◌==◌, if◌then◌else◌,
}
use ollama_queue_proxy.Config.Env.{Codes}

-- `replace` of one character.
unfoldable pub replace : ℕ → Codes → Codes → Codes
replace old new [] = []
replace old new (c ∷ s) = let rest = replace old new s in if c == old then new ++ rest else c ∷ rest

unfoldable pub pm_label : Codes → Codes
unfolding replace
pm_label v =
    replace b'\n' (b'\\' ∷ b'n' ∷ [])
      (replace b'"' (b'\\' ∷ b'"' ∷ []) (replace b'\\' (b'\\' ∷ b'\\' ∷ []) v))

-- The digits of a number, on fuel.
unfoldable pub digits : ℕ → ℕ → Codes
digits zero n = []
digits (suc k) n = elim (ltb n 10) [
  | true ↦ (b'0' + n) ∷ []
  | false ↦ digits k (n / 10) ++ (b'0' + n % 10) ∷ []
]

-- `str` of a number: it has no more digits than it counts, or one.
unfoldable pub decimal : ℕ → Codes
unfolding digits
decimal n = digits (suc n) n

-- `label="value"`, and such with commas between them.
unfoldable pub labels_text : List (Codes × Codes) → Codes
unfolding pm_label
labels_text [] = []
labels_text ((l, v) ∷ []) = l ++ b'=' ∷ b'"' ∷ (pm_label v ++ b'"' ∷ [])
labels_text ((l, v) ∷ m ∷ labels) =
    l ++ b'=' ∷ b'"' ∷ (pm_label v ++ b'"' ∷ b',' ∷ labels_text (m ∷ labels))

-- A metric with its labels, if it has any, and its value.
pub record Sample : Type 0 where
  pub name : Codes
  pub labels : List (Codes × Codes)
  pub value : ℕ

unfoldable pub sample_line : Sample → Codes
unfolding labels_text decimal
sample_line s = elim s.labels [
  | [] ↦ s.name ++ b' ' ∷ decimal s.value
  | l ∷ labels ↦ s.name ++ b'{' ∷ (labels_text (l ∷ labels) ++ b'}' ∷ b' ' ∷ decimal s.value)
]

-- A metric with its help, its type, and the samples of its series.
pub record Family : Type 0 where
  pub name : Codes
  pub help : Codes
  pub kind : Codes
  pub labels : List Codes
  pub series : List (List Codes × ℕ)

unfoldable pub zip : List Codes → List Codes → List (Codes × Codes)
zip [] values = []
zip (l ∷ labels) [] = []
zip (l ∷ labels) (v ∷ values) = (l, v) ∷ zip labels values

unfoldable pub samples_of : Codes → List Codes → List (List Codes × ℕ) → List Sample
unfolding zip
samples_of name labels [] = []
samples_of name labels ((values, n) ∷ series) =
    record { name = name; labels = zip labels values; value = n } ∷ samples_of name labels series

unfoldable pub sample_lines : List Sample → List Codes
unfolding sample_line
sample_lines [] = []
sample_lines (s ∷ samples) = sample_line s ∷ sample_lines samples

-- The lines that a metric adds.
unfoldable pub family_lines : Family → List Codes
unfolding sample_lines samples_of
family_lines f =
    (codes "# HELP " ++ (f.name ++ b' ' ∷ f.help))
    ∷ (codes "# TYPE " ++ (f.name ++ b' ' ∷ f.kind))
    ∷ sample_lines (samples_of f.name f.labels f.series)

unfoldable pub all_lines : List Family → List Codes
unfolding family_lines
all_lines [] = []
all_lines (f ∷ families) = family_lines f ++ all_lines families

-- `"\n".join(lines) + "\n"`, of some lines.
unfoldable pub page_of : List Codes → Codes
page_of [] = []
page_of (l ∷ lines) = l ++ b'\n' ∷ page_of lines
