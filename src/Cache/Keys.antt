-- ===== src/Cache/Keys.antt =====
-- What tells two cache keys apart.
use ollama_queue_proxy.Prelude.{ℕ, ◌≡◌, ◌≢◌, refl, sym, subst, String, List, [], ◌∷◌, ◌++◌, All}
use ollama_queue_proxy.Json.{Json}
use ollama_queue_proxy.Cache.{preimage}

-- No byte is zero.
abbrev pub IsZeroFree : List ℕ → Type 0
IsZeroFree = All (λ c. c ≢ 0)

tail_eq : (x y : ℕ) (xs ys : List ℕ) → x ∷ xs ≡ y ∷ ys → xs ≡ ys
tail_eq x y xs ys e = cc

not_zero_free : (xs ys : List ℕ) → IsZeroFree (xs ++ 0 ∷ ys) → ⊥
not_zero_free [] ys h = h.0 refl
not_zero_free (x ∷ xs) ys h = not_zero_free xs ys h.1

-- The last zero of a text is where it says.
split_at_last :
    (m n c d : List ℕ) → IsZeroFree c → IsZeroFree d → m ++ 0 ∷ c ≡ n ++ 0 ∷ d → (m ≡ n) × (c ≡ d)
split_at_last [] [] c d hc hd e = (refl, tail_eq 0 0 c d e)
split_at_last [] (y ∷ n) c d hc hd e =
    absurd (not_zero_free n d (subst IsZeroFree (tail_eq 0 y c (n ++ 0 ∷ d) e) hc))
split_at_last (x ∷ m) [] c d hc hd e =
    absurd (not_zero_free m c (subst IsZeroFree (sym (tail_eq x 0 (m ++ 0 ∷ c) d e)) hd))
split_at_last (x ∷ m) (y ∷ n) c d hc hd e =
    let (same, rest) = split_at_last m n c d hc hd (tail_eq x y (m ++ 0 ∷ c) (n ++ 0 ∷ d) e) in
    let head : x ≡ y = cc in (cc, rest)

-- Where the encodings of texts and payloads lose nothing and that of a payload has no zero byte, what is
-- hashed for a cache key determines the model and the payload: a response of one model is never stored
-- under the text that is hashed for another, also if the name of a model has zero bytes.
pub preimage_injective :
    (utf8 : String → List ℕ) (canonical : Json → List ℕ)
    → ((s t : String) → utf8 s ≡ utf8 t → s ≡ t)
    → ((p q : Json) → canonical p ≡ canonical q → p ≡ q)
    → ((p : Json) → IsZeroFree (canonical p))
    → (model other : String) (p q : Json)
    → preimage utf8 canonical model p ≡ preimage utf8 canonical other q
    → (model ≡ other) × (p ≡ q)
unfolding preimage
preimage_injective utf8 canonical texts payloads zero_free model other p q e =
    let (m, c) =
      split_at_last (utf8 model) (utf8 other) (canonical p) (canonical q) (zero_free p)
        (zero_free q) e in
    (texts model other m, payloads p q c)
