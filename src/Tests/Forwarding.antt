-- ===== src/Tests/Forwarding.antt =====
-- Caps, routing and failover, at concrete inputs.
use ollama_queue_proxy.Prelude.{
  ℕ, suc, ◌<◌, ◌≡◌, ◌≢◌, refl, String, Bool, true, false, none, some, [], ◌∷◌, All, arith, length,
  any, contains, str_eq, if◌then◌else◌,
}
use ollama_queue_proxy.Routing.{
  Host, host_of, round_robin, RoutingTable, init, hosts, pick, weighted, choose, pick_round_robin,
  candidates,
}
use ollama_queue_proxy.Routing.Total.{Weighs}
use ollama_queue_proxy.Routing.Cycle.{picks, picks_fair, weight_of, times}
use ollama_queue_proxy.Proxy.{
  Upstream, Reply, responds, connection_failure, Attempted, answered, other_failure, attempt,
}
use ollama_queue_proxy.Proxy.Failover.{failover_ends}
use ollama_queue_proxy.Proxy.Names.{names}
use ollama_queue_proxy.Proxy.Reaches.{failover_reaches, is_live, IsEntry}
use ollama_queue_proxy.Tests.Data.{fast_host, slow_host}

abbrev pub table : RoutingTable
table = init round_robin (fast_host ∷ slow_host ∷ [])

picks_first : (pick none table).0 ≡ some (host_of fast_host)
unfolding pick init choose pick_round_robin candidates
picks_first = refl

pub some_hosts : 0 < length (hosts table)
unfolding init
some_hosts = omega arith

pub table-Weighs : All Weighs (hosts table)
unfolding init
table-Weighs = (omega arith, (omega arith, tt))

-- The host of that name.
abbrev is_named : String → Host → Bool
is_named name h = str_eq h.name name

picks_fair_example :
    let cs = host_of fast_host ∷ host_of slow_host ∷ [] in
    times (is_named "a") (picks (length (weighted cs)) cs 7) ≡ weight_of (is_named "a") cs
picks_fair_example = picks_fair (is_named "a") (host_of fast_host ∷ host_of slow_host ∷ []) 7

-- The first host is down, the second answers.
abbrev pub answer : Upstream
answer = record {
  status_code = 200;
  content_type = "application/json";
  headers = [];
  content = some [];
  says_not_found = false;
}

abbrev first_down : ℕ → Host → Reply
first_down n h = if str_eq h.name "a" then connection_failure else responds answer

failover_ends_example :
    (r : Attempted) × ((attempt first_down
        (λ _ u. u)
        none
        (suc (length (hosts table)))
        0
        []
        table).0
      ≡ some r)
failover_ends_example = failover_ends first_down (λ _ u. u) none table (λ n u. refl)

b_answers : (n : ℕ) (h : Host) → h.name ≡ "b" → first_down n h ≢ connection_failure
b_answers n h e = rw (e, first_down) (ground arith)

b_live : any (is_live "b") (hosts table) ≡ true
unfolding init
b_live = refl

table-IsEntry : All IsEntry table.states
unfolding init
table-IsEntry = ((refl, omega arith), ((refl, omega arith), tt))

none_raises : (n : ℕ) (h : Host) → first_down n h ≢ other_failure
none_raises n h = ground arith

failover_reaches_example :
    (name : String) × (u : Upstream) × ((attempt first_down
        (λ _ x. x)
        none
        (suc (length (hosts table)))
        0
        []
        table).0
      ≡ some (answered name u))
    × ((n : ℕ) × (h : Host) × (h.name ≡ name)
        × (contains (names table) name ≡ true)
        × (first_down n h ≡ responds u))
failover_reaches_example =
    failover_reaches first_down none "b" table none_raises b_answers table-IsEntry b_live
