-- ===== src/Flags/Runtime/Tests.antt =====
-- Clients without and with listeners.
use workos_node.Prelude.{
  ◌≡◌, refl, ◌≢◌, ℕ, ◌*◌, ◌≤◌, max, none, some, Option, true, false, [], ok, err, arith,
}
use workos_node.Js.{lookup, assign}
use workos_node.Http.Backoff.{Millis}
use workos_node.Flags.Emitter.{on, add, handlers_of}
use workos_node.Flags.Runtime.{
  Failure, other, Client, Signal, new_client, close, finish_poll, next_delay, resolve_ready,
}
use workos_node.Flags.Runtime.Delays.{next_delay_bounds}
use workos_node.Flags.Runtime.Closed.{finish_poll-closed, IsOver}
use workos_node.Flags.Runtime.Laws.{finish_poll-unheard, finish_poll-scheduled, LetsRun}

abbrev quiet : Signal → ℕ → Client → Client × Option Failure
quiet signal fn c = (c, none)

abbrev idle : Client
idle = new_client none none

abbrev watched : Client
watched = record idle { emitter = on idle.emitter "error" 1 }

running : Unit {0}
unfolding new_client resolve_ready on add assign lookup handlers_of close
running = tt

next_delay_bounds_example :
    (1000 * (next_delay 30000 7 12345).den ≤ (next_delay 30000 7 12345).num)
    × (10 * (next_delay 30000 7 12345).num
        ≤ 11 * (max 30000 60000 * (next_delay 30000 7 12345).den))
next_delay_bounds_example = next_delay_bounds 30000 7 12345 (omega arith)

idle_open : idle.closed ≡ false
unfolding running
idle_open = refl

idle_unheard : handlers_of idle.emitter "error" ≡ []
unfolding running
idle_unheard = refl

finish_poll-unheard_example :
    ((finish_poll quiet 0 0 [] (err (other 1)) idle).scheduled ≡ none)
    × ((finish_poll quiet 0 0 [] (err (other 1)) idle).unhandled ≡ some (other 1))
finish_poll-unheard_example = finish_poll-unheard quiet 0 0 [] (other 1) idle idle_open idle_unheard

closed_client : (close watched).closed ≡ true
unfolding running
closed_client = refl

finish_poll-closed_example : IsOver (finish_poll quiet 0 0 [] (ok []) (close watched))
finish_poll-closed_example =
    finish_poll-closed quiet (λ signal fn d done. done) 0 0 [] (ok []) (close watched) closed_client

watched_open : watched.closed ≡ false
unfolding running
watched_open = refl

watched_heard : handlers_of watched.emitter "error" ≢ []
unfolding running
watched_heard = λ e. absurd (ground arith)

quiet-LetsRun : LetsRun quiet
quiet-LetsRun = record { silent = λ signal fn c. refl; stays_open = λ signal fn c opened. opened }

finish_poll-scheduled_example :
    (delay : Millis) × ((finish_poll quiet 0 0 [] (err (other 1)) watched).scheduled ≡ some delay)
finish_poll-scheduled_example =
    finish_poll-scheduled quiet quiet-LetsRun 0 0 [] (err (other 1)) watched watched_open
      watched_heard (λ e. ground arith)
