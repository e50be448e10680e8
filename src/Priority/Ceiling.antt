-- ===== src/Priority/Ceiling.antt =====
-- What the priority ceiling guarantees.
use ollama_queue_proxy.Prelude.{String, ◌≤◌, ◌<◌, ◌≡◌, refl, Option, none, some, arith}
use ollama_queue_proxy.Priority.{
  Tier, high, normal, low, priority_order, tier_name, tier_of, parse_priority,
  enforce_priority_ceiling, injection_tier,
}

-- The tier that a text names, `normal` for any other text.
abbrev pub named : Option Tier → Tier
named none = normal
named (some t) = t

-- Whatever a client asks for, it gets at most the maximum of its key: exactly what it asked for
-- where that lies within the maximum, and the maximum itself where it does not.
pub enforce_priority_ceiling_exact :
    (requested : String) (max_priority : Tier)
    → let asked = named (tier_of requested) in
      let granted = enforce_priority_ceiling requested (some max_priority) in
      (priority_order granted ≤ priority_order max_priority)
      × (priority_order asked ≤ priority_order max_priority → granted ≡ asked)
      × (priority_order max_priority < priority_order asked → granted ≡ max_priority)
unfolding enforce_priority_ceiling
enforce_priority_ceiling_exact requested m = ground arith

tier_of-tier_name : (t : Tier) → tier_of (tier_name t) ≡ some t
unfolding tier_of tier_name
tier_of-tier_name high = refl
tier_of-tier_name normal = refl
tier_of-tier_name low = refl

-- The ceiling that the injection handler writes out for itself is the one of the main port.
pub injection_tier-enforce_priority_ceiling :
    (value : Option String) (max_priority : Tier)
    → injection_tier value max_priority
      ≡ enforce_priority_ceiling (tier_name (parse_priority value)) (some max_priority)
unfolding injection_tier enforce_priority_ceiling
injection_tier-enforce_priority_ceiling value m =
    ground (arith, tier_of-tier_name (parse_priority value))
