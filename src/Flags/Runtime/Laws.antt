-- ===== src/Flags/Runtime/Laws.antt =====
-- When polls go on, and when they stop.
use workos_node.Prelude.{
  ◌≢◌, ℕ, ◌≡◌, refl, ap, ◌∙◌, String, ◌&&◌, str_eq, Bool, true, false, Option, none, some, List, [],
  ◌∷◌, Result, ok, err, arith, if◌then◌else◌,
}
use workos_node.Http.Backoff.{Millis}
use workos_node.Flags.{Flags}
use workos_node.Flags.Changes.{Change, emit_changes}
use workos_node.Flags.Emitter.{handlers_of, emit, Handler}
use workos_node.Flags.Emitter.Laws.{emit-called, is_empty}
use workos_node.Flags.Runtime.{
  Failure, unauthorized, other, changed, errored, Client, Polled, Signal, client_host,
  schedule_next_poll, emit_each, after_error, counted_error, catch_poll, fetched, after_changes,
  finish_poll, resolve_ready,
}
use workos_node.Flags.Runtime.Closed.{
  Keeps, resolve_ready-closed, schedule_next_poll-open, emit-closed, told, told-closed,
}

otherwise {ℓ} : {A : Type ℓ} (b : Bool) (x y : A) → b ≡ false → (if b then x else y) ≡ y
otherwise true x y e = absurd (ground arith)
otherwise false x y e = refl

-- The listeners neither throw nor close the client.
pub record LetsRun (listen : Signal → ℕ → Client → Client × Option Failure) : Type 0 where
  pub silent : (signal : Signal) (fn : ℕ) (c : Client) → (listen signal fn c).1 ≡ none
  pub stays_open : Keeps listen false

module _ (listen : Signal → ℕ → Client → Client × Option Failure) where
  emit-thrown :
      LetsRun listen
      → (signal : Signal) (event : String) (e : Failure) (c : Client)
      → is_empty (handlers_of c.emitter event) && str_eq event "error" ≡ false
      → (emit client_host (listen signal) event e c).thrown ≡ none
  emit-thrown lets signal event e c h =
      let (_, _, thrown) = emit-called client_host (listen signal) (lets.silent signal) event e c in
      ground (arith, thrown)

  not_change : (b : Bool) → b && str_eq "change" "error" ≡ false
  not_change true = refl
  not_change false = refl

  not_empty : (hs : List Handler) → hs ≢ [] → is_empty hs && str_eq "error" "error" ≡ false
  not_empty [] h = absurd (h refl)
  not_empty (k ∷ hs) h = refl

  emit_each-silent :
      LetsRun listen → (changes : List Change) (c : Client) → (emit_each listen changes c).1 ≡ none
  unfolding emit_each
  emit_each-silent lets [] c = refl
  emit_each-silent lets (change ∷ rest) c =
      rw
        (
          emit_each,
          emit-thrown lets (changed change) "change" (other 0) c
              (not_change (is_empty (handlers_of c.emitter "change"))),
        )
        (emit_each-silent lets rest _)

  told-silent :
      LetsRun listen
      → (initialized : Bool) (changes : List Change) (c : Client)
      → (told listen initialized changes c).1 ≡ none
  told-silent lets true changes c = emit_each-silent lets changes c
  told-silent lets false changes c = refl

  catch_poll-scheduled :
      LetsRun listen
      → (draw n : ℕ) (c : Client) → c.closed ≡ false
      → handlers_of c.emitter "error" ≢ []
      → (delay : Millis) × ((catch_poll listen draw (other n) c).scheduled ≡ some delay)
  unfolding catch_poll
  catch_poll-scheduled lets draw n c opened heard =
      let failing = counted_error c in
      let emitted = emit client_host (listen (errored (other n))) "error" (other n) failing in
      let thrown : emitted.thrown ≡ none =
        emit-thrown lets (errored (other n)) "error" (other n) failing (not_empty _ heard) in
      let running : emitted.state.closed ≡ false =
        emit-closed listen false lets.stays_open (errored (other n)) "error" (other n) failing
          opened in
      let caught : catch_poll listen draw (other n) c ≡ schedule_next_poll draw emitted.state =
        otherwise c.closed _ _ opened
        ∙ ap (after_error listen draw (other n) emitted.state) thrown in
      (
        _,
        ap (λ (p : Polled). p.scheduled) caught
            ∙ schedule_next_poll-open draw emitted.state running,
      )

  after_changes-scheduled :
      (draw : ℕ) (c : Client) (o : Option Failure)
      → c.closed ≡ false
      → o ≡ none
      → (delay : Millis) × ((after_changes listen draw c o).scheduled ≡ some delay)
  after_changes-scheduled draw c (some e) running silent = absurd (ground arith)
  after_changes-scheduled draw c none running silent =
      let next : Client = resolve_ready (record c { initialized = true }) in
      (
        _,
        schedule_next_poll-open draw next
            (resolve_ready-closed (record c { initialized = true }) ∙ running),
      )

  -- A poll of an open client that fails while nothing listens to 'error' is the last one: no timer is
  -- started, and the promise of the poll is rejected with the failure.
  pub finish_poll-unheard :
      (now draw : ℕ) (previous : Flags) (e : Failure) (c : Client)
      → c.closed ≡ false
      → handlers_of c.emitter "error" ≡ []
      → ((finish_poll listen now draw previous (err e) c).scheduled ≡ none)
        × ((finish_poll listen now draw previous (err e) c).unhandled ≡ some e)
  unfolding finish_poll catch_poll emit
  finish_poll-unheard now draw previous e c opened nobody = rw (opened, nobody) (refl, refl)

  -- Polling goes on: if the client is open, has a listener for 'error', and its listeners
  -- neither throw nor close it, then a poll that comes to anything but a refused key starts the next
  -- timer.
  pub finish_poll-scheduled :
      LetsRun listen
      → (now draw : ℕ) (previous : Flags) (outcome : Result Failure Flags) (c : Client)
      → c.closed ≡ false
      → handlers_of c.emitter "error" ≢ []
      → outcome ≢ err unauthorized
      → (delay : Millis) × ((finish_poll listen now draw previous outcome c).scheduled ≡ some delay)
  unfolding finish_poll
  finish_poll-scheduled lets now draw previous (err unauthorized) c opened heard refused =
      absurd (refused refl)
  finish_poll-scheduled lets now draw previous (err (other n)) c opened heard refused =
      catch_poll-scheduled lets draw n c opened heard
  finish_poll-scheduled lets now draw previous (ok flags) c opened heard refused =
      let changes = emit_changes previous flags in
      let next = told listen c.initialized changes (fetched now flags c) in
      let running =
        told-closed listen false lets.stays_open c.initialized changes (fetched now flags c)
          opened in
      after_changes-scheduled draw next.0 next.1 running
        (told-silent lets c.initialized changes (fetched now flags c))
