-- ===== src/Prelude/Text.antt =====
-- Texts as code points, and Python's dictionaries with text keys, in insertion order.
use Prim.Native.Nat.{ℕ, ◌+◌}
use Prim.Native.Char.{code}
use Prim.Native.String.{String}
use mathlib.Core.Path.{◌≡◌, refl}
use mathlib.Core.Bool.{Bool, true, false, ◌&&◌}
use mathlib.Core.List.{List, [], ◌∷◌}
use mathlib.Core.Option.{Option, none, some}
use native.Mathlib.Omega.{arith}
use text.Mathlib.Text.{◌==◌ as str_eq}
use text.Mathlib.TextEquality.{eq_iff}
use text.Mathlib.TextPositions.{eq_refl}
use ollama_queue_proxy.Prelude.Tests.{if◌then◌else◌, ◌==◌, leb}

-- The code points of a text.
abbrev pub codes : String → List ℕ
codes String.[] = []
codes (String.◌∷◌ c s) = code c ∷ codes s

abbrev pub codes_eq : List ℕ → List ℕ → Bool
codes_eq [] [] = true
codes_eq (a ∷ s) (b ∷ t) = a == b && codes_eq s t
codes_eq _ _ = false

pub codes_eq_self : (a : List ℕ) → codes_eq a a ≡ true
codes_eq_self [] = refl
codes_eq_self (x ∷ a) = ground (arith, codes_eq_self a)

pub codes_eq_sound : (a b : List ℕ) → codes_eq a b ≡ true → a ≡ b
codes_eq_sound [] [] h = refl
codes_eq_sound [] (y ∷ b) h = absurd (cc)
codes_eq_sound (x ∷ a) [] h = absurd (cc)
codes_eq_sound (x ∷ a) (y ∷ b) h = ground (arith, codes_eq_sound a b)

-- `str.lower` on the code points below 128; it keeps the others, which is what membership in a set
-- of ASCII words observes of Latin-1 header values.
abbrev pub lower : List ℕ → List ℕ
lower [] = []
lower (c ∷ s) = (if leb b'A' c && leb c b'Z' then c + 32 else c) ∷ lower s

-- A dictionary keeps the place of a key that is written again.
abbrev pub Dict {ℓ} : Type ℓ → Type ℓ
Dict V = List (String × V)

module _ {ℓ} {V : Type ℓ} where
  abbrev pub lookup : String → Dict V → Option V
  lookup k [] = none
  lookup k ((j, v) ∷ d) = if str_eq j k then some v else lookup k d

  abbrev pub insert : String → V → Dict V → Dict V
  insert k v [] = (k, v) ∷ []
  insert k v ((j, w) ∷ d) = if str_eq j k then (j, v) ∷ d else (j, w) ∷ insert k v d

  pub lookup-insert :
      (k j : String) (v : V) (d : Dict V)
      → lookup j (insert k v d) ≡ (if str_eq k j then some v else lookup j d)
  lookup-insert k j v [] = refl
  lookup-insert k j v ((i, w) ∷ d) =
      ground (arith, eq_iff k j, eq_iff i k, eq_iff i j, lookup-insert k j v d)

  pub lookup-insert_self : (k : String) (v : V) (d : Dict V) → lookup k (insert k v d) ≡ some v
  lookup-insert_self k v d = rw (lookup-insert k k v d, eq_refl k)

-- The list that a `defaultdict(list)` holds at a key.
abbrev pub entries {ℓ} : {A : Type ℓ} → String → Dict (List A) → List A
entries k d = elim (lookup k d) [ none ↦ [] | some xs ↦ xs ]

-- Membership in a set of texts.
abbrev pub contains : List String → String → Bool
contains [] s = false
contains (t ∷ ts) s = if str_eq t s then true else contains ts s
