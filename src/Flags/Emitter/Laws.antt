-- ===== src/Flags/Emitter/Laws.antt =====
-- What `emit` does to the handlers, and whom it calls.
use workos_node.Prelude.{
  ℕ, String, Bool, true, false, not, ◌&&◌, Option, none, some, List, [], ◌∷◌, ◌==◌, map, filter,
  filter_same, str_eq, eq_iff, ◌≡◌, refl, ap, filter-true, if◌then◌else◌, arith,
}
use workos_node.Flags.Emitter.{
  Handler, handlers_of, remove, listeners, Host, before_call, dispatch, emit_to, emit,
}
use workos_node.Flags.Emitter.Slots.{
  HaveDistinctIds, handlers_of_same, handlers_of-remove, stays, stays-once, filter-stays,
}

abbrev pub is_empty : List Handler → Bool
is_empty [] = true
is_empty (h ∷ hs) = false

module _ {S E : Type 0} (host : Host S) (call : ℕ → S → S × Option E) where
  before_call-handlers :
      (event other : String) (h : Handler) (s : S)
      → handlers_of (host.emitter (before_call host call event h s)) other ≡ (
          if str_eq event other
          then filter
              (λ (c : Handler). not (h.once && c.id == h.id))
              (handlers_of (host.emitter s) event)
          else handlers_of (host.emitter s) other)
  unfolding before_call
  before_call-handlers event other h s = by_once h.once
    where
      by_once :
          (b : Bool)
          → handlers_of
              (host.emitter (
                if b
                then host.with_emitter s
                    (remove (host.emitter s) event (λ (c : Handler). not (c.id == h.id)))
                else s))
              other
            ≡ (if str_eq event other
                then filter
                    (λ (c : Handler). not (b && c.id == h.id))
                    (handlers_of (host.emitter s) event)
                else handlers_of (host.emitter s) other)
      by_once true =
          rw
            (host.emitter_with s
              (remove (host.emitter s) event (λ (c : Handler). not (c.id == h.id))))
            (handlers_of-remove (host.emitter s) event other (λ (c : Handler). not (c.id == h.id)))
      by_once false =
          rw (filter-true (handlers_of (host.emitter s) event))
            (handlers_of_same (host.emitter s) event other)

  -- The listeners leave the state as it is and do not throw.
  abbrev pub IsQuiet : Type 0
  IsQuiet = (fn : ℕ) (s : S) → call fn s ≡ (s, none)

  -- The listeners do not throw.
  abbrev pub NeverThrows : Type 0
  NeverThrows = (fn : ℕ) (s : S) → (call fn s).1 ≡ none

  dispatch-handlers :
      IsQuiet
      → (event other : String) (hs : List Handler) (s : S)
      → handlers_of (host.emitter (dispatch host call event hs s).state) other ≡ (
          if str_eq event other
          then filter (stays hs) (handlers_of (host.emitter s) event)
          else handlers_of (host.emitter s) other)
  unfolding dispatch
  dispatch-handlers quiet event other [] s =
      rw (filter-true (handlers_of (host.emitter s) event))
        (handlers_of_same (host.emitter s) event other)
  dispatch-handlers quiet event other (h ∷ hs) s =
      let next = before_call host call event h s in
      let reached : (dispatch host call event (h ∷ hs) s).state
          ≡ (dispatch host call event hs next).state =
        rw (dispatch, quiet h.fn next) refl in
      rw reached (
        ground (
          arith,
          dispatch-handlers quiet event other hs next,
          before_call-handlers event event h s,
          before_call-handlers event other h s,
          eq_iff event event,
          filter-stays h hs (handlers_of (host.emitter s) event),
        ))

  dispatch-called :
      NeverThrows
      → (event : String) (hs : List Handler) (s : S)
      → ((dispatch host call event hs s).called ≡ map (λ (h : Handler). h.fn) hs)
        × ((dispatch host call event hs s).thrown ≡ none)
        × ((dispatch host call event hs s).heard ≡ true)
  unfolding dispatch
  dispatch-called silent event [] s = (refl, refl, refl)
  dispatch-called silent event (h ∷ hs) s =
      let (calls, nothing, heard) =
        dispatch-called silent event hs (call h.fn (before_call host call event h s)).0 in
      rw (dispatch, silent h.fn (before_call host call event h s))
        (ap (◌∷◌ h.fn) calls, nothing, heard)

  -- Whatever the listeners do to the emitter, as long as none throws, an `emit` calls exactly the
  -- listeners that the event has at that moment, in their order, and answers whether there are any;
  -- without one it throws if the event is 'error'.
  pub emit-called :
      NeverThrows
      → (event : String) (as_error : E) (s : S)
      → ((emit host call event as_error s).called ≡ listeners (host.emitter s) event)
        × ((emit host call event as_error s).heard
            ≡ not (is_empty (handlers_of (host.emitter s) event)))
        × ((emit host call event as_error s).thrown ≡ (
            if is_empty (handlers_of (host.emitter s) event) && str_eq event "error"
            then some as_error
            else none))
  unfolding emit listeners
  emit-called silent event as_error s =
      by_list (handlers_of (host.emitter s) event)
        (dispatch-called silent event (handlers_of (host.emitter s) event) s)
    where
      by_list :
          (l : List Handler)
          → ((dispatch host call event l s).called ≡ map (λ (h : Handler). h.fn) l)
            × ((dispatch host call event l s).thrown ≡ none)
            × ((dispatch host call event l s).heard ≡ true)
          → ((emit_to host call event as_error s l).called ≡ map (λ (h : Handler). h.fn) l)
            × ((emit_to host call event as_error s l).heard ≡ not (is_empty l))
            × ((emit_to host call event as_error s l).thrown
                ≡ (if is_empty l && str_eq event "error" then some as_error else none))
      by_list [] h = (refl, refl, refl)
      by_list (k ∷ l) h = (h.0, h.2, h.1)

  -- Under listeners that leave the state alone and do not throw, an `emit` of an event whose handlers
  -- have distinct identities removes from it exactly those of `once`, and nothing of any other event.
  pub emit-handlers :
      IsQuiet
      → (event other : String) (as_error : E) (s : S)
      → HaveDistinctIds (handlers_of (host.emitter s) event)
      → handlers_of (host.emitter (emit host call event as_error s).state) other ≡ (
          if str_eq event other
          then filter (λ (c : Handler). not c.once) (handlers_of (host.emitter s) event)
          else handlers_of (host.emitter s) other)
  unfolding emit
  emit-handlers quiet event other as_error s distinct =
      let kept =
        filter_same (stays (handlers_of (host.emitter s) event)) (λ (c : Handler). not c.once)
          (handlers_of (host.emitter s) event)
          (stays-once (handlers_of (host.emitter s) event) distinct) in
      ground (
        arith,
        dispatch-handlers quiet event other (handlers_of (host.emitter s) event) s,
        eq_iff event other,
        kept,
      )
