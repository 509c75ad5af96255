-- ===== src/Flags/Emitter/Tests.antt =====
-- An emitter with three listeners on 'change', one of them registered twice.
use workos_node.Prelude.{
  ℕ, ◌≡◌, refl, not, ◌&&◌, none, some, Option, List, [], ◌∷◌, filter, str_eq, if◌then◌else◌,
}
use workos_node.Js.{lookup, assign}
use workos_node.Flags.Emitter.{
  Handler, Emitter, new_emitter, handlers_of, add, on, once, off, remove, put_slot, Host,
  before_call, dispatch, emit, listeners,
}
use workos_node.Flags.Emitter.Laws.{emit-called, emit-handlers, is_empty}
use workos_node.Flags.Emitter.WellFormed.{
  IsWellFormed, Operation, registers, registers_once, unregisters, apply, apply_all,
  apply_all-IsWellFormed, new_emitter-IsWellFormed,
}

-- An emitter by itself, as a host.
abbrev alone : Host Emitter
alone = record { emitter = λ em. em; with_emitter = λ s em. em; emitter_with = λ s em. refl }

abbrev silent : ℕ → Emitter → Emitter × Option ℕ
silent fn em = (em, none)

-- Every listener registers another one, which the running `emit` does not call.
abbrev registering : ℕ → Emitter → Emitter × Option ℕ
registering fn em = (on em "change" 9, none)

abbrev steps : List Operation
steps =
    registers "change" 1
    ∷ registers_once "change" 2
    ∷ registers "change" 2
    ∷ unregisters "change" 3
    ∷ []

abbrev busy : Emitter
busy = apply_all steps new_emitter

running : Unit {0}
unfolding apply_all apply on once off add assign lookup handlers_of remove put_slot emit dispatch
    before_call listeners
running = tt

busy-IsWellFormed : IsWellFormed busy
busy-IsWellFormed = apply_all-IsWellFormed steps new_emitter new_emitter-IsWellFormed

-- A `once` handler of a function that is registered with `on` too goes alone.
keeps_on : listeners (emit alone silent "change" 0 busy).state "change" ≡ 1 ∷ 2 ∷ []
unfolding running
keeps_on = refl

emit-called_example :
    ((emit alone registering "change" 0 busy).called ≡ listeners busy "change")
    × ((emit alone registering "change" 0 busy).heard ≡ not (is_empty (handlers_of busy "change")))
    × ((emit alone registering "change" 0 busy).thrown ≡ (
        if is_empty (handlers_of busy "change") && str_eq "change" "error" then some 0 else none))
emit-called_example = emit-called alone registering (λ fn s. refl) "change" 0 busy

emit-handlers_example : handlers_of (emit alone silent "change" 0 busy).state "change" ≡ (
    if str_eq "change" "change"
    then filter (λ (c : Handler). not c.once) (handlers_of busy "change")
    else handlers_of busy "change")
emit-handlers_example =
    emit-handlers alone silent (λ fn s. refl) "change" "change" 0 busy
      (busy-IsWellFormed.distinct "change")
