-- ===== src/Status/Exposition.antt =====
-- Labels, numbers and lines are read as they were written.
use mathlib.Core.List.{append_assoc}
use ollama_queue_proxy.Prelude.{
  ℕ, zero, suc, ◌+◌, ◌-◌, ◌*◌, ◌/◌, ◌%◌, ◌<◌, ◌≡◌, refl, sym, ap, ◌∙◌, subst, inl, inr, true, false,
  none, some, List, [], ◌∷◌, ◌++◌, All, any, all, is_empty, length, length-append, ltb, ◌==◌, arith,
  Bool-cases, if◌then◌else◌,
}
use ollama_queue_proxy.Config.Env.{Codes, is_digits, digit, to_int}
use ollama_queue_proxy.Status.Labels.{replace, pm_label, digits, decimal, labels_text}
use ollama_queue_proxy.Status.Reader.{
  read_value, read_until, expect, after_value, read_labels, with_label, read_number,
}

-- What a label has in place of a character.
hide : ℕ → Codes
hide c =
    if c == b'\\'
    then b'\\' ∷ b'\\' ∷ []
    else if c == b'"'
    then b'\\' ∷ b'"' ∷ []
    else if c == b'\n'
    then b'\\' ∷ b'n' ∷ []
    else c ∷ []

pm_label-cons : (c : ℕ) (v : Codes) → pm_label (c ∷ v) ≡ hide c ++ pm_label v
unfolding pm_label replace hide
pm_label-cons c v = ground arith

read_value-hide :
    (c : ℕ) (s v rest : Codes)
    → read_value false s ≡ some (v, rest)
    → read_value false (hide c ++ s) ≡ some (c ∷ v, rest)
unfolding read_value hide
read_value-hide c s v rest h = ground arith

-- A label is read as it was before it was escaped, up to its closing quote.
pub read_value-pm_label :
    (v rest : Codes) → read_value false (pm_label v ++ b'"' ∷ rest) ≡ some (v, rest)
unfolding read_value pm_label replace
read_value-pm_label [] rest = refl
read_value-pm_label (c ∷ v) rest =
    rw (pm_label-cons c v, append_assoc (hide c) (pm_label v) (b'"' ∷ rest))
      (read_value-hide c (pm_label v ++ b'"' ∷ rest) v rest (read_value-pm_label v rest))

-- No character is that one.
abbrev pub Lacks : ℕ → Codes → Type 0
Lacks c s = any (λ d. d == c) s ≡ false

pub Lacks-append : (c : ℕ) (s t : Codes) → Lacks c s → Lacks c t → Lacks c (s ++ t)
Lacks-append c [] t h k = k
Lacks-append c (d ∷ s) t h k = ground (arith, Lacks-append c s t)

hide-Lacks : (c : ℕ) → Lacks b'\n' (hide c)
unfolding hide
hide-Lacks c = ground arith

pm_label-Lacks : (v : Codes) → Lacks b'\n' (pm_label v)
unfolding pm_label replace
pm_label-Lacks [] = refl
pm_label-Lacks (c ∷ v) =
    subst (Lacks b'\n') (sym (pm_label-cons c v))
      (Lacks-append b'\n' (hide c) (pm_label v) (hide-Lacks c) (pm_label-Lacks v))

pub read_until-append :
    (stop : ℕ) (l s : Codes) → Lacks stop l → read_until stop (l ++ stop ∷ s) ≡ some (l, s)
unfolding read_until
read_until-append stop [] s h = ground arith
read_until-append stop (c ∷ l) s h = ground (arith, read_until-append stop l s)

pub read_until-none : (stop : ℕ) (l : Codes) → Lacks stop l → read_until stop l ≡ none
unfolding read_until
read_until-none stop [] h = refl
read_until-none stop (c ∷ l) h = ground (arith, read_until-none stop l)

to_int-append : (n c : ℕ) (s : Codes) → to_int n (s ++ c ∷ []) ≡ to_int n s * 10 + (c - b'0')
unfolding to_int
to_int-append n c [] = refl
to_int-append n c (d ∷ s) = to_int-append (n * 10 + (d - b'0')) c s

to_int-digits : (k n : ℕ) → n < k → to_int 0 (digits k n) ≡ n
unfolding digits to_int
to_int-digits zero n h = absurd (omega arith)
to_int-digits (suc k) n h = elim (Bool-cases (ltb n 10)) [
  | inl e ↦ ground arith
  | inr e ↦
      let ih : to_int 0 (digits k (n / 10)) ≡ n / 10 = to_int-digits k (n / 10) (ground arith) in
      ground (arith, to_int-append 0 (b'0' + n % 10) (digits k (n / 10)))
]

all-append : (s t : Codes) → all digit s ≡ true → all digit t ≡ true → all digit (s ++ t) ≡ true
all-append [] t h k = k
all-append (c ∷ s) t h k = ground (arith, all-append s t)

all-digits : (k n : ℕ) → all digit (digits k n) ≡ true
unfolding digits
all-digits zero n = refl
all-digits (suc k) n =
    ground (arith, all-digits k (n / 10), all-append (digits k (n / 10)) ((b'0' + n % 10) ∷ []))

append-nonempty : (s : Codes) (c : ℕ) → is_empty (s ++ c ∷ []) ≡ false
append-nonempty [] c = refl
append-nonempty (d ∷ s) c = refl

decimal-IsNumber : (n : ℕ) → is_digits (decimal n) ≡ true
unfolding decimal digits
decimal-IsNumber n =
    ground (arith, append-nonempty (digits n (n / 10)) (b'0' + n % 10), all-digits (suc n) n)

pub read_number-decimal : (n : ℕ) → read_number (decimal n) ≡ some n
unfolding decimal
read_number-decimal n = ground (arith, decimal-IsNumber n, to_int-digits (suc n) n (omega arith))

digits-Lacks : (c : ℕ) (s : Codes) → digit c ≡ false → all digit s ≡ true → Lacks c s
digits-Lacks c [] h k = refl
digits-Lacks c (d ∷ s) h k = ground (arith, digits-Lacks c s h)

pub decimal-Lacks : (c n : ℕ) → digit c ≡ false → Lacks c (decimal n)
unfolding decimal
decimal-Lacks c n h = digits-Lacks c (digits (suc n) n) h (all-digits (suc n) n)

-- The name of a label has no "=" and no newline.
abbrev pub IsLabel : Codes → Type 0
IsLabel l = Lacks b'=' l × Lacks b'\n' l

abbrev pub HasLabels : List (Codes × Codes) → Type 0
HasLabels = All (λ (x : Codes × Codes). IsLabel x.0)

first_text :
    (l v t rest : Codes)
    → (l ++ b'=' ∷ b'"' ∷ (pm_label v ++ b'"' ∷ t)) ++ rest
      ≡ l ++ b'=' ∷ b'"' ∷ (pm_label v ++ b'"' ∷ (t ++ rest))
first_text l v t rest =
    append_assoc l (b'=' ∷ b'"' ∷ (pm_label v ++ b'"' ∷ t)) rest
    ∙ ap (λ x. l ++ b'=' ∷ b'"' ∷ x) (append_assoc (pm_label v) (b'"' ∷ t) rest)

read_labels-first :
    (k : ℕ) (l v s : Codes)
    → IsLabel l
    → read_labels (suc k) (l ++ b'=' ∷ b'"' ∷ (pm_label v ++ b'"' ∷ s))
      ≡ after_value l v (read_labels k) s
unfolding read_labels expect
read_labels-first k l v s a =
    rw (read_until-append b'=' l (b'"' ∷ (pm_label v ++ b'"' ∷ s)) a.0, read_value-pm_label v s)
      refl

pub read_labels-labels_text :
    (k : ℕ) (l v : Codes) (labels : List (Codes × Codes)) (rest : Codes)
    → length labels < k
    → HasLabels ((l, v) ∷ labels)
    → read_labels k (labels_text ((l, v) ∷ labels) ++ b'}' ∷ rest) ≡ some ((l, v) ∷ labels, rest)
unfolding labels_text after_value
read_labels-labels_text zero l v labels rest h a = absurd (omega arith)
read_labels-labels_text (suc k) l v [] rest h a =
    ap (read_labels (suc k)) (first_text l v [] (b'}' ∷ rest))
    ∙ read_labels-first k l v (b'}' ∷ rest) a.0
read_labels-labels_text (suc k) l v ((m, w) ∷ labels) rest h a =
    let more = labels_text ((m, w) ∷ labels) in
    ap (read_labels (suc k)) (first_text l v (b',' ∷ more) (b'}' ∷ rest))
    ∙ read_labels-first k l v (b',' ∷ (more ++ b'}' ∷ rest)) a.0
    ∙ ap (with_label l v) (read_labels-labels_text k m w labels rest (omega arith) a.1)

pub labels_text-Lacks :
    (labels : List (Codes × Codes)) → HasLabels labels → Lacks b'\n' (labels_text labels)
unfolding labels_text
labels_text-Lacks [] a = refl
labels_text-Lacks ((l, v) ∷ []) a =
    Lacks-append b'\n' l (b'=' ∷ b'"' ∷ (pm_label v ++ b'"' ∷ [])) a.0.1
      (Lacks-append b'\n' (pm_label v) (b'"' ∷ []) (pm_label-Lacks v) refl)
labels_text-Lacks ((l, v) ∷ (m, w) ∷ labels) a =
    Lacks-append b'\n' l (b'=' ∷ b'"' ∷ (pm_label v ++ b'"' ∷ b',' ∷ labels_text ((m, w) ∷ labels)))
      a.0.1
      (Lacks-append b'\n' (pm_label v) (b'"' ∷ b',' ∷ labels_text ((m, w) ∷ labels))
        (pm_label-Lacks v) (labels_text-Lacks ((m, w) ∷ labels) a.1))

-- The text of the labels is longer than their number.
pub labels_text-length :
    (l v : Codes) (labels : List (Codes × Codes))
    → length labels < length (labels_text ((l, v) ∷ labels))
unfolding labels_text
labels_text-length l v [] = omega (arith, length-append l (b'=' ∷ b'"' ∷ (pm_label v ++ b'"' ∷ [])))
labels_text-length l v ((m, w) ∷ labels) =
    let more = labels_text ((m, w) ∷ labels) in
    omega (
      arith,
      labels_text-length m w labels,
      length-append l (b'=' ∷ b'"' ∷ (pm_label v ++ b'"' ∷ b',' ∷ more)),
      length-append (pm_label v) (b'"' ∷ b',' ∷ more),
    )
