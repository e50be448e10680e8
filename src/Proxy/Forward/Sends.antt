-- ===== src/Proxy/Forward/Sends.antt =====
-- All that a dispatch sends: what the HTTP client is asked, of which hosts, with which headers.
use mathlib.Core.List.{Mem, mem-cons_self, mem-cons_of_mem}
use ollama_queue_proxy.Prelude.{
  ℕ, zero, suc, ◌+◌, ◌≡◌, refl, sym, ap, subst, String, Bool, false, not, ◌&&◌, Option, none, some,
  List, [], ◌∷◌, Dict, All, lookup, insert, contains, length, str_eq, ◌==◌, arith, Bool-cases,
  Option-cases, inl, inr, if◌then◌else◌,
}
use ollama_queue_proxy.Http.{Request}
use ollama_queue_proxy.Config.{HostConfig}
use ollama_queue_proxy.Routing.{
  Host, RoutingTable, Strategy, hosts, values, modify, poll, poll_host, pick, mark_unhealthy,
  invalidate, init, add_hosts, host_of,
}
use ollama_queue_proxy.Routing.Candidates.{pick-All}
use ollama_queue_proxy.Proxy.{
  Upstream, Reply, handled, after_answer, attempt, strip_request_headers, is_some_text,
  model_management_paths,
}
use ollama_queue_proxy.Proxy.Names.{states-pick}
use ollama_queue_proxy.Proxy.Headers.{lookup-forward_headers}
use ollama_queue_proxy.Proxy.Dispatch.{dispatch_request}
use ollama_queue_proxy.Proxy.Changes.{Change, polls, picks, answers, fails, step, run}
use ollama_queue_proxy.Proxy.Changes.Down.{All-modify, All-candidates}
use ollama_queue_proxy.Proxy.Forward.{Outgoing, url_for, content_of, path_to, outgoing, forward}

-- The URLs of the hosts never change.
module _ (Q : String → Type 0) where
  abbrev AllUrl : RoutingTable → Type 0
  AllUrl t = All (λ (entry : String × Host). Q entry.1.url) t.states

  modify-AllUrl :
      (change : Host → Host) (name : String) (d : Dict Host)
      → ((h : Host) → (change h).url ≡ h.url)
      → All (λ (entry : String × Host). Q entry.1.url) d
      → All (λ (entry : String × Host). Q entry.1.url) (modify change name d)
  modify-AllUrl change name d same a =
      All-modify (λ (entry : String × Host). Q entry.1.url) change name d
        (λ k h q. subst Q (ground (arith, same h)) q) a

  after_answer-AllUrl :
      (model : Option String) (name : String) (u : Upstream) (t : RoutingTable)
      → AllUrl t
      → AllUrl (after_answer model name u t)
  unfolding after_answer handled invalidate
  after_answer-AllUrl none name u t a = modify-AllUrl _ name t.states (λ h. refl) a
  after_answer-AllUrl (some m) name u t a =
      let counted = modify-AllUrl _ name t.states (λ h. refl) a in
      elim (Bool-cases (u.status_code == 404 && not (str_eq m "") && u.says_not_found)) [
        | inl e ↦ rw e (modify-AllUrl _ name (handled name t).states (λ h. refl) counted)
        | inr e ↦ rw e counted
      ]

  step-AllUrl : (c : Change) (t : RoutingTable) → AllUrl t → AllUrl (step c t)
  unfolding step poll poll_host mark_unhealthy
  step-AllUrl (polls now name none) t a = modify-AllUrl _ name t.states (λ h. refl) a
  step-AllUrl (polls now name (some models)) t a = modify-AllUrl _ name t.states (λ h. refl) a
  step-AllUrl (picks model) t a = subst (All _) (sym (states-pick model t)) a
  step-AllUrl (answers model name u) t a = after_answer-AllUrl model name u t a
  step-AllUrl (fails name) t a = modify-AllUrl _ name t.states (λ h. refl) a

  run-AllUrl : (changes : List Change) (t : RoutingTable) → AllUrl t → AllUrl (run changes t)
  unfolding run
  run-AllUrl [] t a = a
  run-AllUrl (c ∷ rest) t a = run-AllUrl rest (step c t) (step-AllUrl c t a)

  insert-AllUrl :
      (name : String) (h : Host) (d : Dict Host)
      → Q h.url
      → All (λ (entry : String × Host). Q entry.1.url) d
      → All (λ (entry : String × Host). Q entry.1.url) (insert name h d)
  insert-AllUrl name h [] q a = (q, tt)
  insert-AllUrl name h ((k, g) ∷ d) q a = elim (Bool-cases (str_eq k name)) [
    | inl hit ↦ rw hit (q, a.1)
    | inr miss ↦ rw miss (a.0, insert-AllUrl name h d q a.1)
  ]

  add_hosts-AllUrl :
      (hs : List HostConfig) (d : Dict Host)
      → All (λ (h : HostConfig). Q h.url) hs
      → All (λ (entry : String × Host). Q entry.1.url) d
      → All (λ (entry : String × Host). Q entry.1.url) (add_hosts d hs)
  unfolding add_hosts
  add_hosts-AllUrl [] d q a = a
  add_hosts-AllUrl (h ∷ hs) d q a =
      add_hosts-AllUrl hs (insert h.name (host_of h) d) q.1
        (insert-AllUrl h.name (host_of h) d q.0 a)

  values-AllUrl :
      (d : Dict Host)
      → All (λ (entry : String × Host). Q entry.1.url) d
      → All (λ (h : Host). Q h.url) (values d)
  values-AllUrl [] a = tt
  values-AllUrl ((k, h) ∷ d) a = (a.0, values-AllUrl d a.1)

  -- The failover loop asks hosts with such URLs only.
  module _ (send send' : ℕ → Host → Reply) (others : ℕ → List Change) (model : Option String)
      (agree : (n : ℕ) (h : Host) → Q h.url → send n h ≡ send' n h) where
    attempt-agrees :
        (fuel n : ℕ) (attempted : List String) (t : RoutingTable)
        → AllUrl t
        → attempt send (λ i. run (others i)) model fuel n attempted t
          ≡ attempt send' (λ i. run (others i)) model fuel n attempted t
    unfolding attempt step
    attempt-agrees zero n attempted t a = refl
    attempt-agrees (suc fuel) n attempted t a =
        let t1 = (pick model t).1 in
        let kept = step-AllUrl (picks model) t a in
        elim (Option-cases (pick model t).0) [
          | inl e ↦ rw (attempt, e) refl
          | inr (host, e) ↦
              let q =
                pick-All (λ (h : Host). Q h.url) model t host
                  (All-candidates _ t (values-AllUrl t.states a)) e in
              let later =
                attempt-agrees fuel (n + 1) (host.name ∷ attempted)
                  (mark_unhealthy host.name (run (others n) t1))
                  (step-AllUrl (fails host.name) (run (others n) t1)
                    (run-AllUrl (others n) t1 kept)) in
              ground (arith, e, agree n host q, later)
        ]

mem-All :
    (hs gs : List HostConfig)
    → ((g : HostConfig) → Mem g hs → Mem g gs)
    → All (λ (g : HostConfig). (h : HostConfig) × Mem h gs × (h.url ≡ g.url)) hs
mem-All [] gs within = tt
mem-All (h ∷ hs) gs within =
    ((h, within h mem-cons_self, refl), mem-All hs gs (λ g m. within g (mem-cons_of_mem h m)))

-- What a dispatch may send: the method and the body of the caller, to the path at a configured host,
-- with the headers that are to reach it; and no model management where that is disabled.
pub record IsProper (configured : List HostConfig) (path : String) (r : Request)
    (client_id : Option String) (allow : Bool) (body : List ℕ) (o : Outgoing) : Type 0 where
  pub asks : (o.method ≡ r.method) × (o.content ≡ content_of body)
  pub goes_to : (h : HostConfig) × Mem h configured × (o.url ≡ url_for h.url path r.query)
  pub says :
      (name : String)
      → lookup name o.headers ≡ (
          if str_eq "x-client-id" name && is_some_text client_id
          then client_id
          else if contains strip_request_headers name
          then none
          else lookup name r.headers)
  pub permitted : contains model_management_paths path && not allow ≡ false

-- From the start on, whatever happens to the table before a dispatch and during it, the dispatch
-- depends on the HTTP client only by what that makes of proper requests: with a client that makes the
-- same of these, and anything of others, it comes to the same answer and the same table. A proper
-- request has the method and the body of the caller, goes to the path at the URL of a configured host,
-- has of each header what the caller sent, but none that is stripped, the credential among them, and
-- the client that the proxy took the caller for; and is no model management unless that is allowed.
pub dispatch_sends :
    (strategy : Strategy) (configured : List HostConfig) (before : List Change)
    (others : ℕ → List Change) (path_override : Option String) (r : Request)
    (client_id : Option String) (allow : Bool) (model : Option String) (body : List ℕ)
    (client client' : ℕ → Outgoing → Reply)
    → ((n : ℕ) (o : Outgoing)
        → IsProper configured (path_to path_override r) r client_id allow body o
        → client n o ≡ client' n o)
    → let t = run before (init strategy configured) in
      forward client (λ n. run (others n)) path_override r client_id allow model body t
      ≡ forward client' (λ n. run (others n)) path_override r client_id allow model body t
unfolding forward dispatch_request init
dispatch_sends strategy configured before others path_override r client_id allow model body client
      client' agree =
    let path = path_to path_override r in
    elim (Bool-cases (contains model_management_paths path && not allow)) [
      | inl disabled ↦ rw disabled refl
      | inr permitted ↦
          let Q : String → Type 0 = λ url. (h : HostConfig) × Mem h configured × (h.url ≡ url) in
          let started =
            add_hosts-AllUrl Q configured [] (mem-All configured configured (λ g m. m)) tt in
          let t = run before (init strategy configured) in
          let same =
            attempt-agrees Q _ _ others model
              (λ n host q. agree n (outgoing path_override r client_id body host) (record {
                asks = (refl, refl);
                goes_to = (q.0, q.1, ap (λ base. url_for base path r.query) (sym q.2));
                says = λ name. lookup-forward_headers client_id name r.headers;
                permitted = permitted;
              }))
              (suc (length (hosts t))) 0 [] t
              (run-AllUrl Q before (init strategy configured) started) in
          rw (permitted, same) refl
    ]
