-- ===== src/Flags/Emitter.antt =====
-- src/feature-flags/event-emitter.ts. A listener is a number, equal for the same function; a handler
-- has an identity of its own, since `emit` removes a `once` handler by identity. The emitter is a
-- part of the state of its host, which a listener may change.
mod Slots
pub mod Laws
pub mod WellFormed
pub mod States
mod Tests
use workos_node.Prelude.{
  ℕ, suc, String, Bool, true, false, not, Option, none, some, List, [], ◌∷◌, ◌++◌, ◌==◌, map,
  length, filter, str_eq, ◌≡◌, if◌then◌else◌,
}
use workos_node.Js.{lookup, assign}

pub record Handler : Type 0 where
  pub fn : ℕ
  pub once : Bool
  pub id : ℕ

-- `handlers`, a `Map` in insertion order; `next` is the identity of the handler that is made next.
pub record Emitter : Type 0 where
  pub handlers : List (String × List Handler)
  pub next : ℕ

abbrev pub new_emitter : Emitter
new_emitter = record { handlers = []; next = 0 }

-- `this.handlers.get(event) ?? []`
unfoldable pub handlers_of : Emitter → String → List Handler
handlers_of em event = elim (lookup em.handlers event) [ none ↦ [] | some list ↦ list ]

-- `Map.delete`
unfoldable pub discard : List (String × List Handler) → String → List (String × List Handler)
discard [] event = []
discard ((k, list) ∷ rest) event =
    let others = discard rest event in if str_eq k event then others else (k, list) ∷ others

unfoldable pub add : Emitter → String → ℕ → Bool → Emitter
add em event fn one_time = record {
  handlers =
      assign em.handlers event
        (handlers_of em event ++ (record { fn = fn; once = one_time; id = em.next } ∷ []));
  next = suc em.next;
}

-- Keep or delete the slot.
unfoldable pub put_slot : Emitter → String → List Handler → Emitter
put_slot em event [] = record em { handlers = discard em.handlers event }
put_slot em event (h ∷ list) = record em { handlers = assign em.handlers event (h ∷ list) }

unfoldable pub remove : Emitter → String → (Handler → Bool) → Emitter
unfolding put_slot
remove em event keep = elim (lookup em.handlers event) [
  | none ↦ em
  | some list ↦ put_slot em event (filter keep list)
]

unfoldable pub on : Emitter → String → ℕ → Emitter
on em event fn = add em event fn false

unfoldable pub once : Emitter → String → ℕ → Emitter
once em event fn = add em event fn true

unfoldable pub off : Emitter → String → ℕ → Emitter
off em event fn = remove em event (λ (h : Handler). not (h.fn == fn))

unfoldable pub remove_all_listeners : Emitter → Option String → Emitter
remove_all_listeners em none = record em { handlers = [] }
remove_all_listeners em (some event) = record em { handlers = discard em.handlers event }

unfoldable pub listener_count : Emitter → String → ℕ
listener_count em event = length (handlers_of em event)

unfoldable pub listeners : Emitter → String → List ℕ
listeners em event = map (λ (h : Handler). h.fn) (handlers_of em event)

abbrev names : List (String × List Handler) → List String
names [] = []
names ((k, list) ∷ rest) = k ∷ names rest

unfoldable pub event_names : Emitter → List String
event_names em = names em.handlers

-- A state that an emitter is part of.
pub record Host (S : Type 0) : Type 0 where
  pub emitter : S → Emitter
  pub with_emitter : S → Emitter → S
  pub emitter_with : (s : S) (em : Emitter) → emitter (with_emitter s em) ≡ em

-- What an `emit` comes to: the state, the listeners that were called, what was thrown, and what is
-- returned otherwise.
pub record Emitted (S E : Type 0) : Type 0 where
  pub state : S
  pub called : List ℕ
  pub thrown : Option E
  pub heard : Bool

-- `call` runs a listener: it may change the state and may throw.
module _ {S E : Type 0} (host : Host S) (call : ℕ → S → S × Option E) where
  -- The state that a handler is called in: one of `once` is removed before its call.
  unfoldable pub before_call : String → Handler → S → S
  before_call event h s =
      if h.once
      then host.with_emitter s
          (remove (host.emitter s) event (λ (existing : Handler). not (existing.id == h.id)))
      else s

  -- Behind a call: a throw ends the loop.
  abbrev pub continued : Handler → S → Option E → Emitted S E → Emitted S E
  continued h s (some e) rest = record {
    state = s;
    called = h.fn ∷ [];
    thrown = some e;
    heard = true;
  }
  continued h s none rest = record rest { called = h.fn ∷ rest.called }

  -- The loop over the snapshot.
  unfoldable pub dispatch : String → List Handler → S → Emitted S E
  dispatch event [] s = record { state = s; called = []; thrown = none; heard = true }
  dispatch event (h ∷ hs) s =
      let next = call h.fn (before_call event h s) in
      continued h next.0 next.1 (dispatch event hs next.0)

  -- `as_error` is the first argument, as the error that an unhandled 'error' event throws.
  abbrev pub emit_to : String → E → S → List Handler → Emitted S E
  emit_to event as_error s [] = record {
    state = s;
    called = [];
    thrown = if str_eq event "error" then some as_error else none;
    heard = false;
  }
  emit_to event as_error s (h ∷ hs) = dispatch event (h ∷ hs) s

  unfoldable pub emit : String → E → S → Emitted S E
  unfolding dispatch
  emit event as_error s = emit_to event as_error s (handlers_of (host.emitter s) event)
