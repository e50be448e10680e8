-- ===== src/Tests/Changing.antt =====
-- The table of hosts over time, and the identity of a request, at concrete inputs.
use ollama_queue_proxy.Prelude.{◌≡◌, ◌≢◌, ◌⊎◌, refl, false, none, some, List, [], ◌∷◌, lookup, keep}
use ollama_queue_proxy.Routing.{
  Host, host_of, init, round_robin, hosts, pick, candidates, choose, pick_round_robin,
  mark_unhealthy,
}
use ollama_queue_proxy.Routing.Total.{total}
use ollama_queue_proxy.Proxy.Changes.{
  Change, polls, picks, answers, fails, step, run, times_failed, times_answered, times_picked,
}
use ollama_queue_proxy.Proxy.Changes.Accounts.{run_accounts}
use ollama_queue_proxy.Proxy.Changes.Down.{failed_avoided}
use ollama_queue_proxy.Auth as Auth
use ollama_queue_proxy.Queue.State as State
use ollama_queue_proxy.Tests.Data.{fast_host, slow_host}
use ollama_queue_proxy.Tests.Forwarding.{table, some_hosts, table-Weighs, answer}

-- The first host fails once and the second answers once.
abbrev changes : List Change
changes =
    polls 3 "a" (some ("llama3" ∷ []))
    ∷ picks none
    ∷ fails "a"
    ∷ picks (some "llama3")
    ∷ answers (some "llama3") "b" answer
    ∷ polls 40 "a" none
    ∷ []

abbrev first_after : Host
first_after = record (host_of fast_host) {
  reachable = false;
  last_checked = some 40;
  installed_models = "llama3" ∷ [];
  failures = 1;
}

first_found : lookup "a" (run changes table).states ≡ some first_after
unfolding run init pick choose pick_round_robin candidates mark_unhealthy
first_found = refl

run_accounts_example :
    ((h : Host) × (lookup "a" table.states ≡ some h)
      × (first_after.name ≡ h.name)
      × (first_after.url ≡ h.url)
      × (first_after.weight ≡ h.weight)
      × (first_after.model_sync_interval ≡ h.model_sync_interval))
    × (first_after.failures ≡ times_failed changes "a")
    × (first_after.requests_handled ≡ times_answered changes "a")
    × ((run changes table).rr_counter ≡ times_picked changes)
    × (total (run changes table).routing_decisions ≡ times_picked changes)
run_accounts_example =
    run_accounts round_robin (fast_host ∷ slow_host ∷ []) changes "a" first_after some_hosts
      table-Weighs first_found

-- What happens after the failure.
abbrev later : List Change
later = picks none ∷ polls 40 "a" none ∷ polls 40 "b" (some []) ∷ []

second_picked :
    (pick none (run later (step (fails "a") (run [] table)))).0
    ≡ some (record (host_of slow_host) { last_checked = some 40 })
unfolding run init step pick choose pick_round_robin candidates mark_unhealthy
second_picked = refl

failed_avoided_example :
    ((record (host_of slow_host) { last_checked = some 40 }).name ≢ "a")
    ⊎ (keep (λ g. g.reachable) (hosts (run later (step (fails "a") (run [] table)))) ≡ [])
failed_avoided_example =
    failed_avoided round_robin (fast_host ∷ slow_host ∷ []) [] later "a" none
      (record (host_of slow_host) { last_checked = some 40 }) (tt, (tt, (refl, tt))) second_picked
