-- ===== src/Status/Summary.antt =====
-- The summary of src/ollama_queue_proxy/routes/status.py beside the full status.
use ollama_queue_proxy.Prelude.{
  ℕ, ◌+◌, ◌≡◌, refl, String, true, false, List, [], ◌∷◌, length, length-append, ◌++◌, arith,
}
use ollama_queue_proxy.Queue.Contents.{contents}
use ollama_queue_proxy.Routing.{Host, hosts}
use ollama_queue_proxy.Status.{
  View, TierStatus, HostStatus, QueueStatus, host_status, hosts_data, queue_status, tier_status,
  count_reachable, queue_summary,
}

-- The sum of one number over the tiers of a status.
abbrev pub over_tiers : (TierStatus → ℕ) → QueueStatus → ℕ
over_tiers f s = f s.queue.at_high + f s.queue.at_normal + f s.queue.at_low

pub healthy_hosts : List HostStatus → ℕ
healthy_hosts [] = 0
healthy_hosts (h ∷ hs) = elim h.healthy [ true ↦ 1 | false ↦ 0 ] + healthy_hosts hs

module _ (sorted : List String → List String) where
  healthy_hosts_data :
      (hs : List Host)
      → (count_reachable hs ≡ healthy_hosts (hosts_data sorted hs))
        × (length hs ≡ length (hosts_data sorted hs))
  unfolding healthy_hosts hosts_data host_status count_reachable
  healthy_hosts_data [] = (refl, refl)
  healthy_hosts_data (h ∷ hs) = let (a, b) = healthy_hosts_data hs in (ground arith, ground arith)

  -- The summary is what the full status adds up to, and says how many requests wait.
  pub queue_summary-queue_status :
      (v : View)
      → let s = queue_status sorted v in
        let t = queue_summary v in
        (t.queued ≡ over_tiers (λ (x : TierStatus). x.depth) s)
        × (t.queued ≡ length (contents v.queue_manager.queues))
        × (t.processed ≡ over_tiers (λ (x : TierStatus). x.processed) s)
        × (t.rejected ≡ over_tiers (λ (x : TierStatus). x.rejected) s)
        × (t.expired ≡ over_tiers (λ (x : TierStatus). x.expired) s)
        × (t.hosts_healthy ≡ healthy_hosts s.hosts)
        × (t.hosts_total ≡ length s.hosts)
        × (t.active ≡ s.active)
        × (t.max_concurrent ≡ s.max)
        × (t.uptime_seconds ≡ s.uptime_seconds)
  unfolding queue_status queue_summary tier_status
  queue_summary-queue_status v =
      let q = v.queue_manager.queues in
      let (healthy, total) = healthy_hosts_data (hosts v.routing_table) in
      (
        omega arith,
        omega (
          arith,
          length-append q.at_high (q.at_normal ++ q.at_low),
          length-append q.at_normal q.at_low,
        ),
        omega arith,
        omega arith,
        omega arith,
        healthy,
        total,
        refl,
        refl,
        refl,
      )
