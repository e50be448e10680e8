-- ===== src/Admin.antt =====
-- The queue controls over HTTP: src/ollama_queue_proxy/routes/queue.py.
pub mod Gate
use Prim.Native.String.{◌++◌ as text_append}
use ollama_queue_proxy.Prelude.{
  ℕ, String, Bool, true, false, Option, none, some, List, [], ◌∷◌, ◌||◌, str_eq, if◌then◌else◌,
}
use ollama_queue_proxy.Http.{Request, ErrorResponse}
use ollama_queue_proxy.Priority.{Tier, tier_of}
use ollama_queue_proxy.Scope.{management}
use ollama_queue_proxy.Auth.{AuthManager, Outcome, returns, raises_type_error, require_scope}
use ollama_queue_proxy.Queue.State.{Manager}
use ollama_queue_proxy.Queue.Shutdown.{drained}
use ollama_queue_proxy.Queue.Control.{pause, resume, flush, Flushed}

-- A body of a control route: `status`, `tier`, and the number of dropped items of a flush.
pub record Controlled : Type 0 where
  pub status : String
  pub tier : String
  pub dropped : Option ℕ

-- An error answer, the answer of the control, or an uncaught exception.
pub data ControlAnswer : Type 0 where
  refused : ErrorResponse → ControlAnswer
  controlled : Controlled → ControlAnswer
  crashed : ControlAnswer

pub data Control : Type 0 where
  pausing resuming flushing : Control

-- A `tier` parameter that is accepted: all tiers, or one of them.
pub data TierArgument : Type 0 where
  accepted : Option Tier → TierArgument
  invalid : String → TierArgument

-- `_validate_tier`, with the tier that the text names.
unfoldable validate_tier : Option String → TierArgument
unfolding tier_of
validate_tier none = accepted none
validate_tier (some name) = elim (tier_of name) [ none ↦ invalid name | some t ↦ accepted (some t) ]

-- `repr name` is Python's `repr` of the text.
module _ (repr : String → String) where
  pub invalid_tier : Request → String → ErrorResponse
  invalid_tier r name = record {
    status_code = 400;
    error =
        text_append (text_append "invalid tier: " (repr name)) " (must be high, normal, or low)";
    request_id = r.request_id;
    headers = [];
  }

  pub tier_or_all : Option String → String
  tier_or_all none = "all"
  tier_or_all (some name) = if str_eq name "" then "all" else name

  abbrev flushed : Option String → Flushed → ControlAnswer × Manager
  flushed tier f =
      if f.completed
      then (
        controlled
            (record { status = "flushed"; tier = tier_or_all tier; dropped = some f.dropped }),
        f.after,
      )
      else (crashed, f.after)

  unfoldable pub perform : Control → Option String → Option Tier → Manager → ControlAnswer × Manager
  unfolding tier_or_all
  perform pausing tier t m = (
    controlled (record { status = "paused"; tier = tier_or_all tier; dropped = none }),
    pause t m,
  )
  perform resuming tier t m = (
    controlled (record { status = "resumed"; tier = tier_or_all tier; dropped = none }),
    resume t m,
  )
  perform flushing tier t m = flushed tier (flush t m)

  pub validated :
      Control → Request → Option String → TierArgument → Manager → ControlAnswer × Manager
  unfolding invalid_tier
  validated control r tier (accepted t) m = perform control tier t m
  validated control r tier (invalid name) m = (refused (invalid_tier r name), m)

  pub authorized :
      Control
      → Request
      → Option String
      → Outcome (Option ErrorResponse)
      → Manager
      → ControlAnswer × Manager
  unfolding validated
  authorized control r tier (returns none) m = validated control r tier (validate_tier tier) m
  authorized control r tier (returns (some e)) m = (refused e, m)
  authorized control r tier raises_type_error m = (crashed, m)

  -- `queue_pause`, `queue_resume` and `queue_flush`.
  pub queue_control :
      Control
      → ℕ
      → Request
      → Option String
      → AuthManager
      → Manager
      → ControlAnswer × AuthManager × Manager
  unfolding authorized
  queue_control control now r tier auth m =
      let (gate, auth') = require_scope now r management auth in
      let (answer, m') = authorized control r tier gate m in (answer, auth', m')

-- What `queue_drain` has come to: an error answer, "drained", a wait that goes on, or an uncaught
-- exception.
pub data DrainAnswer : Type 0 where
  not_allowed : ErrorResponse → DrainAnswer
  all_drained still_waits raised : DrainAnswer

-- The loop of `drain`, over the managers at its looks, one in each tenth of a second: whether it has
-- ended.
unfoldable pub drain : (looks : List Manager) → Bool
drain [] = false
drain (m ∷ looks) = let later = drain looks in drained m || later

unfoldable pub drain_authorized : Outcome (Option ErrorResponse) → List Manager → DrainAnswer
unfolding drain
drain_authorized (returns none) looks = if drain looks then all_drained else still_waits
drain_authorized (returns (some e)) looks = not_allowed e
drain_authorized raises_type_error looks = raised

-- `queue_drain`, which only looks at the queues.
unfoldable pub queue_drain : ℕ → Request → AuthManager → List Manager → DrainAnswer × AuthManager
unfolding drain_authorized
queue_drain now r auth looks =
    let (gate, auth') = require_scope now r management auth in (drain_authorized gate looks, auth')
