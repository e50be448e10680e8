-- ===== src/Tests/Stopping.antt =====
-- The shutdown, at a concrete run.
use ollama_queue_proxy.Prelude.{◌<◌, ◌≡◌, refl, true, false, some, [], ◌∷◌, arith, length}
use ollama_queue_proxy.Priority.{normal}
use ollama_queue_proxy.Queue.State.{is_pending}
use ollama_queue_proxy.Queue.Enqueue.{enqueue, admit, check_watermark}
use ollama_queue_proxy.Queue.Worker.{get_nowait, take, raised}
use ollama_queue_proxy.Queue.Steps.{
  Loop, submits, takes, finishes, run, start, submit, step, take_turn,
}
use ollama_queue_proxy.Queue.Shutdown.{drained, shut_down}
use ollama_queue_proxy.Queue.Abandoned.{Unanswered, shut_down-Abandoned}
use ollama_queue_proxy.Tests.Data.{queue_config}

-- One request is being dispatched, and nothing waits.
abbrev one_dispatched : Loop
one_dispatched = run (submits normal 0 "r1" 10 ∷ takes 1 ∷ []) (start queue_config 2)

one_runs : length one_dispatched.running ≡ 1
unfolding run step submit enqueue check_watermark admit take get_nowait take_turn start
one_runs = refl

nothing_waits : drained one_dispatched.manager ≡ true
unfolding run step submit enqueue check_watermark admit take get_nowait take_turn start
nothing_waits = refl

is_made : 0 < one_dispatched.next_future
unfolding run step submit enqueue check_watermark admit take get_nowait take_turn start
is_made = omega arith

has_no_outcome : is_pending (one_dispatched.futures 0) ≡ true
unfolding run step submit enqueue check_watermark admit take get_nowait take_turn start
has_no_outcome = refl

shut_down-Abandoned_example :
    (after : Loop) × (shut_down false one_dispatched ≡ some after)
    × Unanswered ((run (finishes 5 0 raised ∷ takes 6 ∷ []) after).futures 0)
shut_down-Abandoned_example =
    shut_down-Abandoned one_dispatched 0 (finishes 5 0 raised ∷ takes 6 ∷ []) nothing_waits is_made
      has_no_outcome
