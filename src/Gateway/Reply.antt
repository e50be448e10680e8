-- ===== src/Gateway/Reply.antt =====
-- The end of `_enqueue_request` of src/ollama_queue_proxy/main.py: from the future's outcome to the
-- answer to the client.
use ollama_queue_proxy.Prelude.{
  ℕ, ◌-◌, ◌/◌, String, ◌&&◌, Option, none, some, [], Dict, insert, ltb, if◌then◌else◌,
}
use ollama_queue_proxy.Http.{Request, ErrorResponse, HeaderValue, number, Answer, upstream, error}
use ollama_queue_proxy.Queue.State.{
  QueueItem, QueueError, request_expired, queue_flushed, dispatch_error, FutureState, pending,
  cancelled, result, exception,
}
use ollama_queue_proxy.Gateway.{AppState, count_processed}

abbrev millisecond : ℕ
millisecond = 1000000

-- `response.headers["X-Queue-Wait-Time"] = ...`, and the position for a request that waited.
queue_headers : ℕ → ℕ → Dict HeaderValue → Dict HeaderValue
queue_headers wait_ms position d =
    let timed = insert "X-Queue-Wait-Time" (number wait_ms) d in
    if ltb 0 wait_ms && ltb 1 position
    then insert "X-Queue-Position" (number position) timed
    else timed

unfoldable pub with_headers : ℕ → ℕ → Answer → Answer
unfolding queue_headers
with_headers wait_ms position (upstream r) =
    upstream (record r { headers = queue_headers wait_ms position r.headers })
with_headers wait_ms position (error e) =
    error (record e { headers = queue_headers wait_ms position e.headers })

unfoldable pub unavailable : String → String → ErrorResponse
unavailable reason request_id = record {
  status_code = 503;
  error = reason;
  request_id = request_id;
  headers = [];
}

-- What an exception of the future is answered with.
unfoldable pub failed : Request → QueueError → ErrorResponse
unfolding unavailable
failed r request_expired = unavailable "request expired in queue" r.request_id
failed r queue_flushed = unavailable "upstream error" r.request_id
failed r dispatch_error = unavailable "upstream error" r.request_id

-- From `await future` on. There is no answer while the future is pending, or if the task was
-- cancelled.
unfoldable pub reply :
    ℕ → Request → Option String → ℕ → QueueItem → FutureState → AppState → Option Answer × AppState
unfolding with_headers failed
reply now r client position item pending s = (none, s)
reply now r client position item cancelled s = (none, s)
reply now r client position item (exception e) s = (some (error (failed r e)), s)
reply now r client position item (result a) s = (
  some (with_headers ((now - item.enqueue_time) / millisecond) position a),
  record s { client_stats = count_processed client s.client_stats },
)
