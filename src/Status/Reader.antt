-- ===== src/Status/Reader.antt =====
-- The Prometheus text format, as a scraper reads it: an independent description of what
-- src/ollama_queue_proxy/routes/status.py writes.
use ollama_queue_proxy.Prelude.{
  ℕ, zero, suc, Bool, true, false, Option, none, some, List, [], ◌∷◌, length, ◌==◌, if◌then◌else◌,
}
use ollama_queue_proxy.Config.Env.{Codes, is_digits, to_int}
use ollama_queue_proxy.Status.Labels.{Sample}

-- The character of a value that an escape stands for.
abbrev pub reveal : ℕ → Option ℕ
reveal c =
    if c == b'\\'
    then some b'\\'
    else if c == b'"'
    then some b'"'
    else if c == b'n'
    then some b'\n'
    else none

abbrev pub in_value : Option ℕ → Option (Codes × Codes) → Option (Codes × Codes)
in_value none r = none
in_value (some c) none = none
in_value (some c) (some (v, rest)) = some (c ∷ v, rest)

-- A value up to its closing quote, and what follows. The flag says that a backslash came before.
unfoldable pub read_value : Bool → Codes → Option (Codes × Codes)
read_value escaped [] = none
read_value true (c ∷ s) = in_value (reveal c) (read_value false s)
read_value false (c ∷ s) =
    let wait = read_value true s in
    let next = read_value false s in
    if c == b'"' then some ([], s) else if c == b'\\' then wait else in_value (some c) next

-- A text up to a character, and what follows that.
unfoldable pub read_until : ℕ → Codes → Option (Codes × Codes)
read_until stop [] = none
read_until stop (c ∷ s) =
    let next = in_value (some c) (read_until stop s) in if c == stop then some ([], s) else next

unfoldable pub expect : ℕ → Codes → Option Codes
expect c [] = none
expect c (d ∷ s) = if c == d then some s else none

infixl 5 ◌>>=◌
abbrev pub ◌>>=◌ {ℓ κ} : {A : Type ℓ} {B : Type κ} → Option A → (A → Option B) → Option B
none >>= f = none
some a >>= f = f a

abbrev pub Labels : Type 0
Labels = List (Codes × Codes)

abbrev pub with_label : Codes → Codes → Option (Labels × Codes) → Option (Labels × Codes)
with_label l v none = none
with_label l v (some (labels, rest)) = some ((l, v) ∷ labels, rest)

-- Past a value: the closing brace, or a comma and more labels.
unfoldable pub after_value :
    Codes → Codes → (Codes → Option (Labels × Codes)) → Codes → Option (Labels × Codes)
after_value l v more [] = none
after_value l v more (c ∷ s) =
    if c == b'}' then some ((l, v) ∷ [], s) else if c == b',' then with_label l v (more s) else none

-- Labels up to the closing brace, on fuel.
unfoldable pub read_labels : ℕ → Codes → Option (Labels × Codes)
unfolding read_until expect read_value after_value
read_labels zero s = none
read_labels (suc k) s = do
  (l, quoted) ← read_until b'=' s
  value ← expect b'"' quoted
  (v, rest) ← read_value false value
  after_value l v (read_labels k) rest

abbrev pub read_number : Codes → Option ℕ
read_number s = if is_digits s then some (to_int 0 s) else none

-- A line without labels.
unfoldable pub read_plain : Codes → Option Sample
unfolding read_until to_int
read_plain line = do
  (name, number) ← read_until b' ' line
  value ← read_number number
  some (record { name = name; labels = []; value = value })

-- A line with the name before the brace.
unfoldable pub read_labelled : Codes × Codes → Option Sample
unfolding read_labels expect to_int
read_labelled (name, body) = do
  (labels, rest) ← read_labels (length body) body
  number ← expect b' ' rest
  value ← read_number number
  some (record { name = name; labels = labels; value = value })

unfoldable pub read_sample : Codes → Option Sample
unfolding read_until read_plain read_labelled
read_sample line = elim (read_until b'{' line) [
  | none ↦ read_plain line
  | some parts ↦ read_labelled parts
]

abbrev pub is_comment : Codes → Bool
is_comment [] = true
is_comment (c ∷ s) = c == b'#'

abbrev pub with_sample : Option Sample → Option (List Sample) → Option (List Sample)
with_sample none more = none
with_sample (some s) none = none
with_sample (some s) (some more) = some (s ∷ more)

unfoldable pub read_lines : List Codes → Option (List Sample)
unfolding read_sample
read_lines [] = some []
read_lines (l ∷ lines) =
    let more = read_lines lines in if is_comment l then more else with_sample (read_sample l) more

abbrev pub in_first : ℕ → List Codes → List Codes
in_first c [] = (c ∷ []) ∷ []
in_first c (l ∷ lines) = (c ∷ l) ∷ lines

-- The lines of a text, each with a newline at its end.
unfoldable pub split_lines : Codes → List Codes
split_lines [] = []
split_lines (c ∷ s) =
    let lines = split_lines s in if c == b'\n' then [] ∷ lines else in_first c lines

-- The samples of a page, in order.
unfoldable pub read_page : Codes → Option (List Sample)
unfolding read_lines split_lines
read_page page = read_lines (split_lines page)
