-- ===== src/Clock.antt =====
-- Times are readings of `time.monotonic()` in nanoseconds, which the source keeps as floats.
use ollama_queue_proxy.Prelude.{ℕ}

abbrev pub second : ℕ
second = 1000000000
