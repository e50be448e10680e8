-- ===== src/Status/Page.antt =====
-- A page of metrics is read as its samples.
use ollama_queue_proxy.Prelude.{
  ℕ, ◌<◌, ◌≡◌, refl, ap, ◌∙◌, true, false, none, some, List, [], ◌∷◌, ◌++◌, All, All-append, length,
  length-append, arith,
}
use ollama_queue_proxy.Config.Env.{Codes}
use ollama_queue_proxy.Status.Labels.{
  decimal, labels_text, Sample, sample_line, sample_lines, Family, zip, samples_of, family_lines,
  all_lines, page_of,
}
use ollama_queue_proxy.Status.Reader.{
  read_until, expect, read_plain, read_labelled, read_sample, is_comment, read_lines, split_lines,
  read_page,
}
use ollama_queue_proxy.Status.Exposition.{
  Lacks, Lacks-append, IsLabel, HasLabels, read_until-append, read_until-none, read_number-decimal,
  decimal-Lacks, labels_text-Lacks, labels_text-length, read_labels-labels_text,
}

-- The name of a metric has no space, no brace and no newline, and begins no comment.
abbrev pub IsName : Codes → Type 0
IsName n = Lacks b' ' n × Lacks b'{' n × Lacks b'\n' n × (is_comment n ≡ false)

abbrev pub IsSample : Sample → Type 0
IsSample s = IsName s.name × HasLabels s.labels

read_sample-plain :
    (line : Codes) → read_until b'{' line ≡ none → read_sample line ≡ read_plain line
unfolding read_sample
read_sample-plain line h = rw (h, read_sample) refl

read_sample-labelled :
    (line : Codes) (parts : Codes × Codes)
    → read_until b'{' line ≡ some parts
    → read_sample line ≡ read_labelled parts
unfolding read_sample
read_sample-labelled line parts h = rw (h, read_sample) refl

plain-read :
    (name : Codes) (n : ℕ)
    → IsName name
    → read_sample (name ++ b' ' ∷ decimal n) ≡ some (record { name = name; labels = []; value = n })
unfolding read_plain
plain-read name n a =
    let brace : Lacks b'{' (name ++ b' ' ∷ decimal n) =
      Lacks-append b'{' name (b' ' ∷ decimal n) a.1 (decimal-Lacks b'{' n refl) in
    read_sample-plain (name ++ b' ' ∷ decimal n)
      (read_until-none b'{' (name ++ b' ' ∷ decimal n) brace)
    ∙ rw (read_until-append b' ' name (decimal n) a.0, read_number-decimal n) refl

labelled-read :
    (name l v : Codes) (labels : List (Codes × Codes)) (n : ℕ)
    → IsName name
    → HasLabels ((l, v) ∷ labels)
    → read_sample (name ++ b'{' ∷ (labels_text ((l, v) ∷ labels) ++ b'}' ∷ b' ' ∷ decimal n))
      ≡ some (record { name = name; labels = (l, v) ∷ labels; value = n })
unfolding read_labelled expect
labelled-read name l v labels n a b =
    let text = labels_text ((l, v) ∷ labels) in
    let body = text ++ b'}' ∷ b' ' ∷ decimal n in
    let enough : length labels < length body =
      omega (arith, labels_text-length l v labels, length-append text (b'}' ∷ b' ' ∷ decimal n)) in
    read_sample-labelled (name ++ b'{' ∷ body) (name, body) (read_until-append b'{' name body a.1)
    ∙ rw
        (
          read_labels-labels_text (length body) l v labels (b' ' ∷ decimal n) enough b,
          read_number-decimal n,
        )
        refl

read-line :
    (name : Codes) (labels : List (Codes × Codes)) (n : ℕ)
    → IsName name
    → HasLabels labels
    → let s : Sample = record { name = name; labels = labels; value = n } in
      read_sample (sample_line s) ≡ some s
unfolding sample_line
read-line name [] n a b = plain-read name n a
read-line name ((l, v) ∷ labels) n a b = labelled-read name l v labels n a b

line-Lacks :
    (name : Codes) (labels : List (Codes × Codes)) (n : ℕ)
    → IsName name
    → HasLabels labels
    → Lacks b'\n' (sample_line (record { name = name; labels = labels; value = n }))
unfolding sample_line
line-Lacks name [] n a b =
    Lacks-append b'\n' name (b' ' ∷ decimal n) a.2 (decimal-Lacks b'\n' n refl)
line-Lacks name ((l, v) ∷ labels) n a b =
    let text = labels_text ((l, v) ∷ labels) in
    Lacks-append b'\n' name (b'{' ∷ (text ++ b'}' ∷ b' ' ∷ decimal n)) a.2 (
      Lacks-append b'\n' text (b'}' ∷ b' ' ∷ decimal n) (labels_text-Lacks ((l, v) ∷ labels) b)
        (decimal-Lacks b'\n' n refl))

is_comment-append :
    (s : Codes) (c : ℕ) (t : Codes) → is_comment s ≡ false → is_comment (s ++ c ∷ t) ≡ false
is_comment-append [] c t h = cc
is_comment-append (d ∷ s) c t h = h

line-IsNoComment :
    (name : Codes) (labels : List (Codes × Codes)) (n : ℕ)
    → IsName name
    → is_comment (sample_line (record { name = name; labels = labels; value = n })) ≡ false
unfolding sample_line
line-IsNoComment name [] n a = is_comment-append name b' ' (decimal n) a.3
line-IsNoComment name ((l, v) ∷ labels) n a =
    is_comment-append name b'{' (labels_text ((l, v) ∷ labels) ++ b'}' ∷ b' ' ∷ decimal n) a.3

split_lines-line : (l s : Codes) → Lacks b'\n' l → split_lines (l ++ b'\n' ∷ s) ≡ l ∷ split_lines s
unfolding split_lines
split_lines-line [] s h = refl
split_lines-line (c ∷ l) s h = ground (arith, split_lines-line l s)

split_lines-page_of :
    (lines : List Codes) → All (Lacks b'\n') lines → split_lines (page_of lines) ≡ lines
unfolding page_of split_lines
split_lines-page_of [] a = refl
split_lines-page_of (l ∷ lines) a =
    split_lines-line l (page_of lines) a.0 ∙ ap (λ x. l ∷ x) (split_lines-page_of lines a.1)

-- A sample line and then lines that are read.
read_lines-sample :
    (s : Sample) (lines : List Codes) (more : List Sample)
    → IsSample s
    → read_lines lines ≡ some more
    → read_lines (sample_line s ∷ lines) ≡ some (s ∷ more)
unfolding read_lines
read_lines-sample s lines more a h =
    rw (line-IsNoComment s.name s.labels s.value a.0, read-line s.name s.labels s.value a.0 a.1, h)
      refl

read_lines-comment :
    (l : Codes) (lines : List Codes)
    → is_comment l ≡ true
    → read_lines (l ∷ lines) ≡ read_lines lines
unfolding read_lines
read_lines-comment l lines h = rw h refl

-- What can be written of a metric: its names fit, its help and its type have no newline.
abbrev pub IsFamily : Family → Type 0
IsFamily f = IsName f.name × Lacks b'\n' f.help × Lacks b'\n' f.kind × All IsLabel f.labels

zip-HasLabels : (labels values : List Codes) → All IsLabel labels → HasLabels (zip labels values)
unfolding zip
zip-HasLabels [] values a = tt
zip-HasLabels (l ∷ labels) [] a = tt
zip-HasLabels (l ∷ labels) (v ∷ values) a = (a.0, zip-HasLabels labels values a.1)

samples_of-IsSample :
    (name : Codes) (labels : List Codes) (series : List (List Codes × ℕ))
    → IsName name
    → All IsLabel labels
    → All IsSample (samples_of name labels series)
unfolding samples_of
samples_of-IsSample name labels [] a b = tt
samples_of-IsSample name labels ((values, n) ∷ series) a b =
    ((a, zip-HasLabels labels values b), samples_of-IsSample name labels series a b)

-- The samples of some metrics, in order.
unfoldable pub all_samples : List Family → List Sample
unfolding samples_of
all_samples [] = []
all_samples (f ∷ families) = samples_of f.name f.labels f.series ++ all_samples families

read_lines-sample_lines :
    (samples more : List Sample) (lines : List Codes)
    → All IsSample samples
    → read_lines lines ≡ some more
    → read_lines (sample_lines samples ++ lines) ≡ some (samples ++ more)
unfolding sample_lines
read_lines-sample_lines [] more lines a h = h
read_lines-sample_lines (s ∷ samples) more lines a h =
    read_lines-sample s (sample_lines samples ++ lines) (samples ++ more) a.0
      (read_lines-sample_lines samples more lines a.1 h)

sample_lines-Lacks :
    (samples : List Sample) → All IsSample samples → All (Lacks b'\n') (sample_lines samples)
unfolding sample_lines
sample_lines-Lacks [] a = tt
sample_lines-Lacks (s ∷ samples) a =
    (line-Lacks s.name s.labels s.value a.0.0 a.0.1, sample_lines-Lacks samples a.1)

read_lines-all_lines :
    (families : List Family)
    → All IsFamily families
    → read_lines (all_lines families) ≡ some (all_samples families)
unfolding all_lines family_lines all_samples read_lines
read_lines-all_lines [] a = refl
read_lines-all_lines (f ∷ families) a =
    let (n, help, kind, labels) = a.0 in
    read_lines-sample_lines (samples_of f.name f.labels f.series) (all_samples families)
      (all_lines families) (samples_of-IsSample f.name f.labels f.series n labels)
      (read_lines-all_lines families a.1)

all_lines-Lacks :
    (families : List Family) → All IsFamily families → All (Lacks b'\n') (all_lines families)
unfolding all_lines family_lines
all_lines-Lacks [] a = tt
all_lines-Lacks (f ∷ families) a =
    let (n, help, kind, labels) = a.0 in
    let samples = samples_of f.name f.labels f.series in
    (
      Lacks-append b'\n' f.name (b' ' ∷ f.help) n.2 help,
      (
        Lacks-append b'\n' f.name (b' ' ∷ f.kind) n.2 kind,
        All-append (Lacks b'\n') (sample_lines samples) (all_lines families)
            (sample_lines-Lacks samples (samples_of-IsSample f.name f.labels f.series n labels))
            (all_lines-Lacks families a.1),
      ),
    )

-- A page of metrics whose names fit is read as their samples: no value of a label, whatever characters
-- it has, adds, hides or changes a series.
pub read_page-page_of :
    (families : List Family)
    → All IsFamily families
    → read_page (page_of (all_lines families)) ≡ some (all_samples families)
unfolding read_page
read_page-page_of families a =
    ap read_lines (split_lines-page_of (all_lines families) (all_lines-Lacks families a))
    ∙ read_lines-all_lines families a
