-- ===== src/Tests/Sending.antt =====
-- What a dispatch sends, at a concrete request.
use ollama_queue_proxy.Prelude.{
  ℕ, ◌≡◌, refl, false, none, some, List, [], ◌∷◌, lookup, str_eq, if◌then◌else◌, arith,
}
use ollama_queue_proxy.Routing.{round_robin, init}
use ollama_queue_proxy.Proxy.{
  Reply, responds, connection_failure, other_failure, forward_headers, strip_request_headers,
}
use ollama_queue_proxy.Proxy.Changes.{Change, polls, picks, run}
use ollama_queue_proxy.Proxy.Forward.{Outgoing, outgoing, forward}
use ollama_queue_proxy.Proxy.Forward.Sends.{IsProper, dispatch_sends}
use ollama_queue_proxy.Routing.{host_of}
use ollama_queue_proxy.Tests.Data.{fast_host, slow_host, worker_request}
use ollama_queue_proxy.Tests.Forwarding.{answer}

-- Only the second host is up.
abbrev client : ℕ → Outgoing → Reply
client n o = if str_eq o.url "http://b/api/generate" then responds answer else connection_failure

-- A client that would take a credential.
abbrev thief : ℕ → Outgoing → Reply
thief n o = elim (lookup "authorization" o.headers) [
  | none ↦ client n o
  | some credential ↦ other_failure
]

first_sent : outgoing none worker_request (some "worker") (1 ∷ []) (host_of fast_host) ≡ record {
  method = "POST";
  url = "http://a/api/generate";
  headers = ("x-client-id", "worker") ∷ [];
  content = some (1 ∷ []);
}
unfolding outgoing forward_headers
first_sent = refl

abbrev meanwhile : ℕ → List Change
meanwhile n = picks none ∷ polls n "a" none ∷ []

same_client :
    (n : ℕ) (o : Outgoing)
    → IsProper
        (fast_host ∷ slow_host ∷ [])
        "/api/generate"
        worker_request
        (some "worker")
        false
        (1 ∷ [])
        o
    → client n o ≡ thief n o
unfolding strip_request_headers
same_client n o p = ground (arith, p.says "authorization")

dispatch_sends_example :
    let t = run (picks none ∷ []) (init round_robin (fast_host ∷ slow_host ∷ [])) in
    forward client
      (λ n. run (meanwhile n))
      none
      worker_request
      (some "worker")
      false
      none
      (1 ∷ [])
      t
    ≡ forward thief
        (λ n. run (meanwhile n))
        none
        worker_request
        (some "worker")
        false
        none
        (1 ∷ [])
        t
dispatch_sends_example =
    dispatch_sends round_robin (fast_host ∷ slow_host ∷ []) (picks none ∷ []) meanwhile none
      worker_request (some "worker") false none (1 ∷ []) client thief same_client
