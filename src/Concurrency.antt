-- ===== src/Concurrency.antt =====
-- src/ollama_queue_proxy/concurrency.py: the cap on each client's concurrent requests.
-- `asyncio.Semaphore` is modelled by its value and the number of its waiters; the permit that a
-- release hands to a waiter counts as free until the waiter goes on, and nobody else takes it.
pub mod Cap
use ollama_queue_proxy.Prelude.{
  ℕ, zero, suc, ◌+◌, ◌-◌, ◌≤◌, ◌<◌, String, Bool, true, false, not, ◌&&◌, Option, none, some, List,
  [], ◌∷◌, Dict, lookup, insert, ltb, leb, ◌==◌, if◌then◌else◌,
}
use ollama_queue_proxy.Config.{ApiKeyConfig}

abbrev pub fairness_max_reentries : ℕ
fairness_max_reentries = 3

-- `semaphore` is `None` for a client without a cap. `waiters` counts the tasks in its queue.
pub record ClientState : Type 0 where
  pub client_id : String
  pub cap : ℕ
  pub semaphore : Option ℕ
  pub waiters : ℕ
  pub inflight : ℕ
  pub cap_waiting : ℕ

-- `__post_init__`
unfoldable pub client_state : String → ℕ → ClientState
client_state client_id cap = record {
  client_id = client_id;
  cap = cap;
  semaphore = if ltb 0 cap then some cap else none;
  waiters = 0;
  inflight = 0;
  cap_waiting = 0;
}

unfoldable pub is_capped : ClientState → Bool
is_capped s = ltb 0 s.cap

-- What `acquire` comes to: the slot, or a place among the waiters of the semaphore.
pub data Acquired : Type 0 where
  acquired waits_for_slot : Acquired

-- `ClientState.acquire`, up to its first suspension: the semaphore is taken at once if it has a
-- permit and nobody waits.
unfoldable pub acquire_slot : ClientState → Acquired × ClientState
acquire_slot s = elim s.semaphore [
  | none ↦ (acquired, record s { inflight = s.inflight + 1 })
  | some value ↦
      if ltb 0 value && s.waiters == 0
      then (acquired, record s { semaphore = some (value - 1); inflight = s.inflight + 1 })
      else (waits_for_slot, record s { waiters = s.waiters + 1; cap_waiting = s.cap_waiting + 1 })
]

-- The end of the wait: `acquire` goes on with the permit that a release left, and nobody else
-- takes it before, since the woken task is the first of the waiters.
unfoldable pub wake_up : ClientState → ClientState
wake_up s = elim s.semaphore [
  | none ↦ s
  | some value ↦
      if ltb 0 value && ltb 0 s.waiters
      then record s {
        semaphore = some (value - 1);
        waiters = s.waiters - 1;
        cap_waiting = s.cap_waiting - 1;
        inflight = s.inflight + 1;
      }
      else s
]

-- `ClientState.release`
unfoldable pub release_slot : ClientState → ClientState
release_slot s = record s {
  inflight = s.inflight - 1;
  semaphore = elim s.semaphore [ none ↦ none | some value ↦ some (value + 1) ];
}

-- `ClientConcurrencyManager.__init__`: the last entry of a client stands.
unfoldable pub client_states : Dict ClientState → List ApiKeyConfig → Dict ClientState
unfolding client_state
client_states d [] = d
client_states d (k ∷ ks) =
    client_states (insert k.client_id (client_state k.client_id k.max_concurrent) d) ks

-- `get_state`
unfoldable pub get_state : Option String → Dict ClientState → Option ClientState
get_state none states = none
get_state (some client_id) states = lookup client_id states

-- `ClientConcurrencyManager.acquire` on the state that it finds.
unfoldable pub acquire : ℕ → ClientState → Acquired × ClientState
unfolding is_capped acquire_slot
acquire reentries s =
    if not (is_capped s)
    then (acquired, record s { inflight = s.inflight + 1 })
    else if leb fairness_max_reentries reentries
    then (acquired, record s { inflight = s.inflight + 1 })
    else acquire_slot s

-- `is_at_cap`
pub is_at_cap : ClientState → Bool
unfolding is_capped
is_at_cap s = is_capped s && leb s.cap s.inflight

-- What happens to one client: a request arrives with its number of reentries, a waiter goes on, or
-- one of the requests in flight ends.
pub data Event : Type 0 where
  arrives : ℕ → Event
  goes_on ends : Event

unfoldable pub step : Event → ClientState → ClientState
unfolding acquire wake_up release_slot
step (arrives reentries) s = (acquire reentries s).1
step goes_on s = wake_up s
step ends s = if ltb 0 s.inflight then release_slot s else s

unfoldable pub run : List Event → ClientState → ClientState
unfolding step
run [] s = s
run (e ∷ rest) s = run rest (step e s)
