-- ===== src/Flags/Runtime/Closed.antt =====
-- What is left of a poll whose client is closed, and of a client's being open.
use workos_node.Prelude.{
  ℕ, ◌≡◌, refl, ◌∙◌, String, Bool, true, false, Option, none, some, List, [], ◌∷◌, Result, ok, err,
  if◌then◌else◌,
}
use workos_node.Flags.{Flags}
use workos_node.Flags.Changes.{Change, emit_changes}
use workos_node.Flags.Emitter.{Emitted, emit}
use workos_node.Flags.Emitter.States.{emit_keeps}
use workos_node.Flags.Runtime.{
  Failure, other, resolved, settled, changed, Client, Polled, Signal, client_host, next_delay,
  schedule_next_poll, emit_each, catch_poll, fetched, after_changes, finish_poll, resolve_ready,
}

-- What the listeners leave of `closed`.
abbrev pub Keeps : (Signal → ℕ → Client → Client × Option Failure) → Bool → Type 0
Keeps listen b =
    (signal : Signal) (fn : ℕ) (c : Client) → c.closed ≡ b → (listen signal fn c).0.closed ≡ b

pub resolve_ready-closed : (c : Client) → (resolve_ready c).closed ≡ c.closed
unfolding resolve_ready
resolve_ready-closed c = by_test c.can_resolve
  where
    by_test :
        (b : Bool)
        → (if b
            then record c { ready = settled c.ready resolved; can_resolve = false }
            else c).closed
          ≡ c.closed
    by_test true = refl
    by_test false = refl

schedule_next_poll-closed :
    (draw : ℕ) (c : Client)
    → c.closed ≡ true
    → schedule_next_poll draw c ≡ record { client = c; scheduled = none; unhandled = none }
unfolding schedule_next_poll
schedule_next_poll-closed draw c done = rw done refl

pub schedule_next_poll-open :
    (draw : ℕ) (c : Client)
    → c.closed ≡ false
    → (schedule_next_poll draw c).scheduled
      ≡ some (next_delay c.polling_interval_ms c.consecutive_errors draw)
unfolding schedule_next_poll
schedule_next_poll-open draw c opened = rw opened refl

-- A poll that is over: no timer, nothing thrown, and the client closed.
abbrev pub IsOver : Polled → Type 0
IsOver p = (p.scheduled ≡ none) × (p.unhandled ≡ none) × (p.client.closed ≡ true)

module _ (listen : Signal → ℕ → Client → Client × Option Failure) where
  pub emit-closed :
      (b : Bool)
      → Keeps listen b
      → (signal : Signal) (event : String) (e : Failure) (c : Client) → c.closed ≡ b
      → (emit client_host (listen signal) event e c).state.closed ≡ b
  emit-closed b keeps signal event e c h =
      emit_keeps client_host (listen signal) (λ d. d.closed ≡ b) (λ d em k. k) (keeps signal) event
        e c h

  emit_each-closed :
      (b : Bool)
      → Keeps listen b
      → (changes : List Change) (c : Client) → c.closed ≡ b
      → (emit_each listen changes c).0.closed ≡ b
  unfolding emit_each
  emit_each-closed b keeps [] c h = h
  emit_each-closed b keeps (change ∷ rest) c h =
      by_thrown emitted.thrown after (emit_each-closed b keeps rest emitted.state after)
    where
      emitted : Emitted Client Failure
      emitted = emit client_host (listen (changed change)) "change" (other 0) c

      after : emitted.state.closed ≡ b
      after = emit-closed b keeps (changed change) "change" (other 0) c h

      by_thrown :
          (o : Option Failure)
          → emitted.state.closed ≡ b
          → (emit_each listen rest emitted.state).0.closed ≡ b
          → (elim o as (λ x. Client × Option Failure) [
            | some e ↦ (emitted.state, some e)
            | none ↦ emit_each listen rest emitted.state
          ]).0.closed
            ≡ b
      by_thrown none k l = l
      by_thrown (some e) k l = k

  catch_poll-IsOver :
      (draw : ℕ) (e : Failure) (c : Client) → c.closed ≡ true → IsOver (catch_poll listen draw e c)
  unfolding catch_poll
  catch_poll-IsOver draw e c done = rw done (refl, refl, refl)

  after_changes-IsOver :
      (draw : ℕ) (c : Client) (o : Option Failure)
      → c.closed ≡ true
      → IsOver (after_changes listen draw c o)
  after_changes-IsOver draw c (some e) done = catch_poll-IsOver draw e c done
  after_changes-IsOver draw c none done =
      let next : Client = resolve_ready (record c { initialized = true }) in
      let shut : next.closed ≡ true =
        resolve_ready-closed (record c { initialized = true }) ∙ done in
      rw (schedule_next_poll-closed draw next shut) (refl, refl, shut)

  -- What `emitChanges` comes to if there is anything to compare with.
  abbrev pub told : Bool → List Change → Client → Client × Option Failure
  told b changes c = if b then emit_each listen changes c else (c, none)

  pub told-closed :
      (b : Bool)
      → Keeps listen b
      → (initialized : Bool) (changes : List Change) (c : Client) → c.closed ≡ b
      → (told initialized changes c).0.closed ≡ b
  told-closed b keeps true changes c h = emit_each-closed b keeps changes c h
  told-closed b keeps false changes c h = h

  -- A closed client polls no more: if no listener opens a closed client, then nothing that a request
  -- comes to behind the close starts a timer, the poll throws nothing, and the client stays closed.
  pub finish_poll-closed :
      Keeps listen true
      → (now draw : ℕ) (previous : Flags) (outcome : Result Failure Flags) (c : Client)
      → c.closed ≡ true
      → IsOver (finish_poll listen now draw previous outcome c)
  unfolding finish_poll
  finish_poll-closed stay now draw previous (err e) c done = catch_poll-IsOver draw e c done
  finish_poll-closed stay now draw previous (ok flags) c done =
      after_changes-IsOver draw _ _ (
        told-closed true stay c.initialized (emit_changes previous flags) (fetched now flags c)
          done)
