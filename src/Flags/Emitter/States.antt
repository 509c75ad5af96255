-- ===== src/Flags/Emitter/States.antt =====
-- What an `emit` keeps of the state of its host.
use workos_node.Prelude.{
  ℕ, String, Bool, true, false, not, Option, none, some, List, [], ◌∷◌, ◌==◌, if◌then◌else◌,
}
use workos_node.Flags.Emitter.{
  Handler, Emitter, handlers_of, remove, Host, before_call, continued, dispatch, emit_to, emit,
}

module _ {ℓ} {S E : Type 0} (host : Host S) (call : ℕ → S → S × Option E) (P : S → Type ℓ)
    (other_emitter : (s : S) (em : Emitter) → P s → P (host.with_emitter s em))
    (called : (fn : ℕ) (s : S) → P s → P (call fn s).0) where
  before_call_keeps :
      (event : String) (h : Handler) (s : S) → P s → P (before_call host call event h s)
  unfolding before_call
  before_call_keeps event h s p = by_once h.once
    where
      by_once :
          (b : Bool)
          → P (
              if b
              then host.with_emitter s
                  (remove (host.emitter s) event (λ (c : Handler). not (c.id == h.id)))
              else s)
      by_once true = other_emitter s _ p
      by_once false = p

  dispatch_keeps :
      (event : String) (hs : List Handler) (s : S) → P s → P (dispatch host call event hs s).state
  unfolding dispatch
  dispatch_keeps event [] s p = p
  dispatch_keeps event (h ∷ hs) s p =
      by_thrown (call h.fn (before_call host call event h s)).1 after
        (dispatch_keeps event hs _ after)
    where
      next : S × Option E
      next = call h.fn (before_call host call event h s)

      after : P next.0
      after = called h.fn _ (before_call_keeps event h s p)

      by_thrown :
          (o : Option E)
          → P next.0
          → P (dispatch host call event hs next.0).state
          → P (continued host call h next.0 o (dispatch host call event hs next.0)).state
      by_thrown none a b = b
      by_thrown (some e) a b = a

  pub emit_keeps :
      (event : String) (as_error : E) (s : S) → P s → P (emit host call event as_error s).state
  unfolding emit
  emit_keeps event as_error s p = by_list (handlers_of (host.emitter s) event)
    where
      by_list : (l : List Handler) → P (emit_to host call event as_error s l).state
      by_list [] = p
      by_list (h ∷ hs) = dispatch_keeps event (h ∷ hs) s p
