-- ===== src/Flags/Runtime.antt =====
-- The polls of src/feature-flags/runtime-client.ts: `poll` up to its `await` and behind it,
-- `scheduleNextPoll`, `resolveReady` and `close`. What the request gives, the clock and the random
-- draws are arguments; a listener is a function on the client.
pub mod Delays
pub mod Closed
pub mod Laws
mod Tests
use workos_node.Prelude.{
  ℕ, suc, ◌+◌, ◌-◌, ◌*◌, ◌^◌, max, min, refl, Bool, true, false, not, ◌&&◌, Option, none, some,
  List, [], ◌∷◌, ltb, if◌then◌else◌, Result, ok, err,
}
use workos_node.Http.Backoff.{Millis}
use workos_node.Flags.{Flags, swap, size}
use workos_node.Flags.Changes.{Change, emit_changes}
use workos_node.Flags.Emitter.{Emitter, new_emitter, remove_all_listeners, Host, emit}

-- What a poll fails with, and what a listener throws.
pub data Failure : Type 0 where
  unauthorized : Failure
  other : ℕ → Failure

abbrev pub is_unauthorized : Failure → Bool
is_unauthorized unauthorized = true
is_unauthorized (other n) = false

-- `readyPromise`
pub data Ready : Type 0 where
  pending : Ready
  resolved : Ready
  rejected : Failure → Ready

pub record Stats : Type 0 where
  pub poll_count : ℕ
  pub poll_error_count : ℕ
  pub last_poll_at : Option ℕ
  pub last_successful_poll_at : Option ℕ
  pub flag_count : ℕ

-- `can_resolve` and `can_reject`: `readyResolve` and `readyReject` are not null.
pub record Client : Type 0 where
  pub polling_interval_ms : ℕ
  pub closed : Bool
  pub initialized : Bool
  pub consecutive_errors : ℕ
  pub poll_timer : Option Millis
  pub ready : Ready
  pub can_resolve : Bool
  pub can_reject : Bool
  pub store : Flags
  pub stats : Stats
  pub emitter : Emitter

abbrev default_polling_interval_ms : ℕ
default_polling_interval_ms = 30000

abbrev pub min_polling_interval_ms : ℕ
min_polling_interval_ms = 5000

abbrev pub min_delay_ms : ℕ
min_delay_ms = 1000

abbrev pub initial_retry_ms : ℕ
initial_retry_ms = 1000

abbrev pub max_retry_ms : ℕ
max_retry_ms = 60000

-- A promise that is settled stays as it is.
abbrev pub settled : Ready → Ready → Ready
settled pending next = next
settled resolved next = resolved
settled (rejected e) next = rejected e

unfoldable pub resolve_ready : Client → Client
resolve_ready c =
    if c.can_resolve then record c { ready = settled c.ready resolved; can_resolve = false } else c

-- The constructor, up to the deferred first poll.
unfoldable pub new_client : Option ℕ → Option Flags → Client
unfolding resolve_ready
new_client interval bootstrap_flags =
    let fresh : Client = record {
      polling_interval_ms =
          max min_polling_interval_ms
            (elim interval [ none ↦ default_polling_interval_ms | some ms ↦ ms ]);
      closed = false;
      initialized = false;
      consecutive_errors = 0;
      poll_timer = none;
      ready = pending;
      can_resolve = true;
      can_reject = true;
      store = [];
      stats = record {
        poll_count = 0;
        poll_error_count = 0;
        last_poll_at = none;
        last_successful_poll_at = none;
        flag_count = 0;
      };
      emitter = new_emitter;
    } in
    elim bootstrap_flags [
      | none ↦ fresh
      | some flags ↦ resolve_ready (record fresh {
        store = swap [] flags;
        stats = record fresh.stats { flag_count = size flags };
      })
    ]

unfoldable pub close : Client → Client
close c = record c {
  closed = true;
  poll_timer = none;
  emitter = remove_all_listeners c.emitter none;
}

-- `baseDelay`
unfoldable pub base_delay : ℕ → ℕ → ℕ
base_delay interval errors =
    if ltb 0 errors
    then max interval (min (initial_retry_ms * 2 ^ (errors - 1)) max_retry_ms)
    else interval

-- The delay, with the jitter of a random draw `draw` / 2^53: 1 + (2 * draw / 2^53 - 1) / 10.
unfoldable pub next_delay : ℕ → ℕ → ℕ → Millis
unfolding base_delay
next_delay interval errors draw = record {
  num = max (min_delay_ms * (10 * 2 ^ 53)) (base_delay interval errors * (9 * 2 ^ 53 + 2 * draw));
  den = 10 * 2 ^ 53;
}

-- What a poll comes to: the client, the timer that it started, and what its promise is rejected with.
pub record Polled : Type 0 where
  pub client : Client
  pub scheduled : Option Millis
  pub unhandled : Option Failure

unfoldable pub schedule_next_poll : ℕ → Client → Polled
schedule_next_poll draw c =
    let delay = next_delay c.polling_interval_ms c.consecutive_errors draw in
    if c.closed then record { client = c; scheduled = none; unhandled = none } else record {
      client = record c { poll_timer = some delay };
      scheduled = some delay;
      unhandled = none;
    }

-- The emitter that the client extends.
abbrev pub client_host : Host Client
client_host = record {
  emitter = λ c. c.emitter;
  with_emitter = λ c em. record c { emitter = em };
  emitter_with = λ c em. refl;
}

-- The argument of a listener.
pub data Signal : Type 0 where
  changed : Change → Signal
  errored : Failure → Signal
  gave_up : Failure → Signal

-- `poll` up to the request; `none` if the client is closed, or else the flags before it.
unfoldable pub start_poll : ℕ → Client → Client × Option Flags
start_poll now c = if c.closed then (c, none) else (
  record c {
    stats = record c.stats { poll_count = c.stats.poll_count + 1; last_poll_at = some now };
  },
  some c.store,
)

abbrev pub stopped_by : Client → Failure → Polled
stopped_by c e = record { client = c; scheduled = none; unhandled = some e }

-- Behind the 'failed' event.
abbrev pub gave_up_ready : Failure → Client → Client
gave_up_ready e c =
    if not c.initialized && c.can_reject
    then record c { ready = settled c.ready (rejected e); can_reject = false }
    else c

abbrev pub after_failed : Failure → Client → Option Failure → Polled
after_failed e c (some thrown) = stopped_by c thrown
after_failed e c none = record { client = gave_up_ready e c; scheduled = none; unhandled = none }

abbrev pub counted_error : Client → Client
counted_error c = record c {
  consecutive_errors = suc c.consecutive_errors;
  stats = record c.stats { poll_error_count = c.stats.poll_error_count + 1 };
}

abbrev pub fetched : ℕ → Flags → Client → Client
fetched now flags c = record c {
  store = swap c.store flags;
  stats = record c.stats { last_successful_poll_at = some now; flag_count = size flags };
  consecutive_errors = 0;
}

module _ (listen : Signal → ℕ → Client → Client × Option Failure) where
  -- The loop of `emitChanges`; a listener that throws ends it.
  unfoldable pub emit_each : List Change → Client → Client × Option Failure
  emit_each [] c = (c, none)
  emit_each (change ∷ rest) c =
      let emitted = emit client_host (listen (changed change)) "change" (other 0) c in
      elim emitted.thrown [ some e ↦ (emitted.state, some e) | none ↦ emit_each rest emitted.state ]

  -- Behind the 'error' event.
  abbrev pub after_error : ℕ → Failure → Client → Option Failure → Polled
  after_error draw e c (some thrown) = stopped_by c thrown
  after_error draw e c none =
      let failed = emit client_host (listen (gave_up e)) "failed" e c in
      if is_unauthorized e
      then after_failed e failed.state failed.thrown
      else schedule_next_poll draw c

  -- The `catch`, and what is behind it.
  unfoldable pub catch_poll : ℕ → Failure → Client → Polled
  catch_poll draw e c =
      let emitted = emit client_host (listen (errored e)) "error" e (counted_error c) in
      if c.closed
      then record { client = c; scheduled = none; unhandled = none }
      else after_error draw e emitted.state emitted.thrown

  abbrev pub after_changes : ℕ → Client → Option Failure → Polled
  after_changes draw c (some thrown) = catch_poll draw thrown c
  after_changes draw c none =
      schedule_next_poll draw (resolve_ready (record c { initialized = true }))

  -- `poll` behind the request; `previous` are the flags before it.
  unfoldable pub finish_poll : ℕ → ℕ → Flags → Result Failure Flags → Client → Polled
  finish_poll now draw previous (err e) c = catch_poll draw e c
  finish_poll now draw previous (ok flags) c =
      let c' = fetched now flags c in
      let told = if c.initialized then emit_each (emit_changes previous flags) c' else (c', none) in
      after_changes draw told.0 told.1
