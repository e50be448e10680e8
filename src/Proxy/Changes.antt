-- ===== src/Proxy/Changes.antt =====
-- The table of hosts over time: the pollers of src/ollama_queue_proxy/routing.py and the requests of
-- src/ollama_queue_proxy/proxy.py change it in any order, each change between two awaits.
pub mod Accounts
pub mod Down
use ollama_queue_proxy.Prelude.{
  ℕ, ◌+◌, ◌≡◌, refl, String, Bool, true, false, Option, none, some, List, [], ◌∷◌, Dict, str_eq,
  if◌then◌else◌,
}
use ollama_queue_proxy.Routing.{RoutingTable, poll, pick, mark_unhealthy}
use ollama_queue_proxy.Proxy.{Upstream, after_answer}

-- A poll of a host ends, with the models that it answers with if it answers; a request picks a host;
-- its host answers; or its host fails.
pub data Change : Type 0 where
  polls : ℕ → String → Option (List String) → Change
  picks : Option String → Change
  answers : Option String → String → Upstream → Change
  fails : String → Change

unfoldable pub step : Change → RoutingTable → RoutingTable
unfolding poll after_answer
step (polls now name answer) t = poll now answer name t
step (picks model) t = (pick model t).1
step (answers model name u) t = after_answer model name u t
step (fails name) t = mark_unhealthy name t

unfoldable pub run : List Change → RoutingTable → RoutingTable
unfolding step
run [] t = t
run (c ∷ rest) t = run rest (step c t)

-- How often the host of that name failed and answered, and how many picks there were.
abbrev pub is_this : String → String → ℕ
is_this k name = if str_eq k name then 1 else 0

abbrev pub failed : Change → String → ℕ
failed (fails name) k = is_this k name
failed _ k = 0

abbrev pub answered : Change → String → ℕ
answered (answers model name u) k = is_this k name
answered _ k = 0

abbrev pub picked : Change → ℕ
picked (picks model) = 1
picked _ = 0

abbrev pub times_failed : List Change → String → ℕ
times_failed [] k = 0
times_failed (c ∷ cs) k = failed c k + times_failed cs k

abbrev pub times_answered : List Change → String → ℕ
times_answered [] k = 0
times_answered (c ∷ cs) k = answered c k + times_answered cs k

abbrev pub times_picked : List Change → ℕ
times_picked [] = 0
times_picked (c ∷ cs) = picked c + times_picked cs
