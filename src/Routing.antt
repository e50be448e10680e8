-- ===== src/Routing.antt =====
-- src/ollama_queue_proxy/routing.py: the state of the Ollama hosts and the choice of one.
pub mod Candidates
pub mod Total
pub mod Cycle
use ollama_queue_proxy.Prelude.{
  ℕ, zero, suc, ◌+◌, ◌%◌, String, Bool, true, false, not, ◌&&◌, Option, none, some, List, [], ◌∷◌,
  ◌++◌, map, Dict, lookup, insert, contains, keep, length, get_elem?, str_eq, is_empty, ◌==◌,
  if◌then◌else◌,
}
use ollama_queue_proxy.Config.{HostConfig}

-- `HostRoutingState`
pub record Host : Type 0 where
  pub url : String
  pub name : String
  pub weight : ℕ
  pub model_sync_interval : ℕ
  pub installed_models : List String
  pub reachable : Bool
  pub last_checked : Option ℕ
  pub requests_handled : ℕ
  pub failures : ℕ

pub data Strategy : Type 0 where
  model_aware round_robin : Strategy

pub record Decisions : Type 0 where
  pub model_match : ℕ
  pub round_robin_count : ℕ
  pub fallback : ℕ

pub record RoutingTable : Type 0 where
  pub strategy : Strategy
  pub states : Dict Host
  pub rr_counter : ℕ
  pub routing_decisions : Decisions

abbrev pub host_of : HostConfig → Host
host_of h = record {
  url = h.url;
  name = h.name;
  weight = h.weight;
  model_sync_interval = h.model_sync_interval;
  installed_models = [];
  reachable = true;
  last_checked = none;
  requests_handled = 0;
  failures = 0;
}

unfoldable pub add_hosts : Dict Host → List HostConfig → Dict Host
add_hosts d [] = d
add_hosts d (h ∷ hs) = add_hosts (insert h.name (host_of h) d) hs

-- `__init__`
unfoldable pub init : Strategy → List HostConfig → RoutingTable
unfolding add_hosts
init strategy hosts = record {
  strategy = strategy;
  states = add_hosts [] hosts;
  rr_counter = 0;
  routing_decisions = record { model_match = 0; round_robin_count = 0; fallback = 0 };
}

abbrev pub values : Dict Host → List Host
values [] = []
values ((k, h) ∷ d) = h ∷ values d

-- `hosts`
abbrev pub hosts : RoutingTable → List Host
hosts t = values t.states

-- A write to the state object that the dictionary holds at a name; a name is there once.
abbrev pub modify : (Host → Host) → String → Dict Host → Dict Host
modify f name [] = []
modify f name ((k, h) ∷ d) = (k, if str_eq k name then f h else h) ∷ modify f name d

abbrev pub update : (Host → Host) → String → RoutingTable → RoutingTable
update f name t = record t { states = modify f name t.states }

-- `_poll_host` on the state of one host: the models that it answers with, each once, or `none` for any
-- failure.
unfoldable pub poll_host : ℕ → Option (List String) → Host → Host
poll_host now (some models) h = record h {
  installed_models = models;
  reachable = true;
  last_checked = some now;
}
poll_host now none h = record h { reachable = false; last_checked = some now }

-- One turn of `_poll_loop`.
unfoldable pub poll : ℕ → Option (List String) → String → RoutingTable → RoutingTable
unfolding poll_host
poll now answer = update (poll_host now answer)

unfoldable pub mark_unhealthy : String → RoutingTable → RoutingTable
mark_unhealthy = update (λ h. record h { reachable = false; failures = h.failures + 1 })

abbrev discard : String → List String → List String
discard model = keep (λ m. not (str_eq m model))

unfoldable pub invalidate : String → String → RoutingTable → RoutingTable
invalidate name model =
    update (λ h. record h { installed_models = discard model h.installed_models }) name

-- `reachable or list(...)`
abbrev pub or_all : List Host → List Host → List Host
or_all [] all = all
or_all (h ∷ hs) all = h ∷ hs

-- `_candidates`
unfoldable pub candidates : RoutingTable → List Host
candidates t = or_all (keep (λ h. h.reachable) (hosts t)) (hosts t)

abbrev pub repeat : ℕ → Host → List Host → List Host
repeat zero h hs = hs
repeat (suc n) h hs = h ∷ repeat n h hs

-- The sequence in which each candidate stands as often as its weight says.
pub weighted : List Host → List Host
weighted [] = []
weighted (h ∷ hs) = repeat h.weight h (weighted hs)

-- `_pick_round_robin`: the host, and the counter after it.
unfoldable pub pick_round_robin : List Host → ℕ → Option Host × ℕ
unfolding weighted
pick_round_robin cs counter = elim (weighted cs) [
  | [] ↦ (none, counter)
  | h ∷ rest ↦ (get_elem? (h ∷ rest) (counter % length (h ∷ rest)), counter + 1)
]

-- The choice among `cs`, counted by `count` if there is one.
unfoldable pub choose :
    List Host → (Decisions → Decisions) → RoutingTable → Option Host × RoutingTable
choose cs count t =
    let (picked, counter) = pick_round_robin cs t.rr_counter in
    (
      picked,
      elim picked [
        | none ↦ record t { rr_counter = counter }
        | some h ↦ record t { rr_counter = counter; routing_decisions = count t.routing_decisions }
      ],
    )

abbrev pub count_model_match : Decisions → Decisions
count_model_match d = record d { model_match = d.model_match + 1 }

abbrev pub count_round_robin : Decisions → Decisions
count_round_robin d = record d { round_robin_count = d.round_robin_count + 1 }

abbrev pub count_fallback : Decisions → Decisions
count_fallback d = record d { fallback = d.fallback + 1 }

abbrev pub with_model : String → List Host → List Host
with_model model = keep (λ h. contains h.installed_models model)

-- `_pick_model_aware`; `any_healthy` is the only fallback that the configuration admits.
unfoldable pub pick_model_aware : String → RoutingTable → Option Host × RoutingTable
pick_model_aware model t =
    if is_empty (with_model model (candidates t))
    then choose (candidates t) count_fallback t
    else choose (with_model model (candidates t)) count_model_match t

-- `pick`: an empty model is no model.
unfoldable pub pick : Option String → RoutingTable → Option Host × RoutingTable
pick model t = elim model [
  | none ↦ choose (candidates t) count_round_robin t
  | some name ↦ elim t.strategy [
    | round_robin ↦ choose (candidates t) count_round_robin t
    | model_aware ↦
        if str_eq name ""
        then choose (candidates t) count_round_robin t
        else pick_model_aware name t
  ]
]
