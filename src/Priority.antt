-- ===== src/Priority.antt =====
-- Queue tiers and the priority ceiling of a key (src/ollama_queue_proxy/middleware.py, auth.py and
-- injection.py).
pub mod Ceiling
use ollama_queue_proxy.Prelude.{
  ℕ, String, Bool, Option, none, some, List, [], ◌∷◌, codes, codes_eq, lower, ltb, if◌then◌else◌,
  str_eq,
}
use ollama_queue_proxy.Http.{Request, header}

pub data Tier : Type 0 where
  high normal low : Tier

-- `PRIORITY_ORDER`.
unfoldable pub priority_order : Tier → ℕ
priority_order high = 2
priority_order normal = 1
priority_order low = 0

-- The text of a tier, as the source carries it.
unfoldable pub tier_name : Tier → String
tier_name high = "high"
tier_name normal = "normal"
tier_name low = "low"

-- `requested in PRIORITY_ORDER`, with the member that it is.
unfoldable pub tier_of : String → Option Tier
tier_of s =
    if str_eq s "high"
    then some high
    else if str_eq s "normal"
    then some normal
    else if str_eq s "low"
    then some low
    else none

-- `parse_priority`, on the header's value.
unfoldable pub parse_priority : Option String → Tier
parse_priority none = normal
parse_priority (some value) =
    let raw = lower (codes value) in
    if codes_eq raw (codes "high")
    then high
    else if codes_eq raw (codes "normal")
    then normal
    else if codes_eq raw (codes "low")
    then low
    else normal

-- `AuthManager.enforce_priority_ceiling`; `max_priority` is that of the key, if there is one.
unfoldable pub enforce_priority_ceiling : String → Option Tier → Tier
unfolding tier_of priority_order
enforce_priority_ceiling requested none = elim (tier_of requested) [ none ↦ normal | some t ↦ t ]
enforce_priority_ceiling requested (some max_priority) =
    let t : Tier = elim (tier_of requested) [ none ↦ normal | some u ↦ u ] in
    if ltb (priority_order max_priority) (priority_order t) then max_priority else t

-- The ceiling as the injection handler writes it out.
unfoldable pub injection_tier : Option String → Tier → Tier
unfolding parse_priority priority_order
injection_tier value max_priority =
    let requested = parse_priority value in
    if ltb (priority_order max_priority) (priority_order requested) then max_priority else requested
