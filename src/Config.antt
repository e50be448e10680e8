-- ===== src/Config.antt =====
-- The configuration models of src/ollama_queue_proxy/config.py, as they stand after validation.
pub mod Keys
pub mod Sources
pub mod Checks
pub mod Constraints
pub mod Env
pub mod Overrides
pub mod Load
use ollama_queue_proxy.Prelude.{ℕ, String, Bool, List}
use ollama_queue_proxy.Priority.{Tier}
use ollama_queue_proxy.Scope.{Scope}

pub record TierConfig : Type 0 where
  pub max_depth : ℕ
  pub max_wait : ℕ
  pub high_watermark_pct : ℕ

-- `overflow_status_code` is 503 or 429.
pub record QueueConfig : Type 0 where
  pub high : TierConfig
  pub normal : TierConfig
  pub low : TierConfig
  pub overflow_status_code : ℕ
  pub max_queued_mb : ℕ

pub record HostConfig : Type 0 where
  pub url : String
  pub name : String
  pub weight : ℕ
  pub model_sync_interval : ℕ

-- One consumer's credential, its source resolved into `key`.
pub record ApiKeyConfig : Type 0 where
  pub key : String
  pub client_id : String
  pub max_priority : Tier
  pub scope : Scope
  pub max_concurrent : ℕ

pub record RateLimitConfig : Type 0 where
  pub max_failures : ℕ
  pub window_seconds : ℕ

pub record AuthConfig : Type 0 where
  pub enabled : Bool
  pub keys : List ApiKeyConfig
  pub rate_limit : RateLimitConfig
