-- ===== src/Queue.antt =====
-- src/ollama_queue_proxy/queue.py: three queues of requests, and the workers that serve them.
pub mod State
pub mod Enqueue
pub mod Worker
pub mod Control
pub mod Steps
pub mod Order
pub mod Slots
pub mod Flush
pub mod Runs
pub mod Bytes
pub mod Ceiling
pub mod Leak
pub mod Awake
pub mod Deaths
pub mod Progress
pub mod Retry
pub mod Contents
pub mod Refinement
pub mod Shutdown
pub mod Abandoned
