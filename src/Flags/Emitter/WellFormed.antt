-- ===== src/Flags/Emitter/WellFormed.antt =====
-- Well-formed emitters, and the operations of a caller on them.
use workos_node.Prelude.{
  ℕ, suc, ◌<◌, String, Bool, true, false, not, Option, none, some, List, [], ◌∷◌, ◌++◌, filter,
  filter-All, All, All-append, All-map, ◌==◌, str_eq, ◌≡◌, refl, ◌≢◌, if◌then◌else◌, arith,
}
use workos_node.Js.{lookup}
use workos_node.Flags.Emitter.{
  Handler, Emitter, new_emitter, handlers_of, add, put_slot, remove, on, once, off,
  remove_all_listeners,
}
use workos_node.Flags.Emitter.Slots.{
  HaveDistinctIds, handlers_of-add, handlers_of-remove, handlers_of-put_slot,
}

-- The handlers of an event have identities of their own, below the next one.
pub record IsWellFormed (em : Emitter) : Type 0 where
  pub distinct : (event : String) → HaveDistinctIds (handlers_of em event)
  pub below : (event : String) → All (λ (h : Handler). h.id < em.next) (handlers_of em event)

distinct-append :
    (n : ℕ) (hs : List Handler) (h : Handler)
    → h.id ≡ n
    → HaveDistinctIds hs
    → All (λ (k : Handler). k.id < n) hs
    → HaveDistinctIds (hs ++ (h ∷ []))
distinct-append n [] h e d b = (tt, tt)
distinct-append n (k ∷ hs) h e d b = (
  All-append _ hs (h ∷ []) d.0 ((λ f. ground (arith, b.0)), tt),
  distinct-append n hs h e d.1 b.1,
)

distinct-filter :
    (p : Handler → Bool) (hs : List Handler) → HaveDistinctIds hs → HaveDistinctIds (filter p hs)
distinct-filter p [] d = tt
distinct-filter p (h ∷ hs) d = by_test (p h) (filter-All _ p hs d.0) (distinct-filter p hs d.1)
  where
    by_test :
        (b : Bool)
        → All (λ (k : Handler). k.id ≢ h.id) (filter p hs)
        → HaveDistinctIds (filter p hs)
        → HaveDistinctIds (elim b [ true ↦ h ∷ filter p hs | false ↦ filter p hs ])
    by_test true first rest = (first, rest)
    by_test false first rest = rest

-- A list that an event has after an operation, given where it comes from.
if_elim :
    (P : List Handler → Type 0) (b : Bool) (hs ks : List Handler)
    → P hs
    → P ks
    → P (if b then hs else ks)
if_elim P true hs ks h k = h
if_elim P false hs ks h k = k

pub new_emitter-IsWellFormed : IsWellFormed new_emitter
unfolding handlers_of lookup
new_emitter-IsWellFormed = record { distinct = λ event. tt; below = λ event. tt }

next-add :
    (em : Emitter) (event : String) (fn : ℕ) (one_time : Bool)
    → (add em event fn one_time).next ≡ suc em.next
unfolding add
next-add em event fn one_time = refl

next-put_slot :
    (em : Emitter) (event : String) (list : List Handler) → (put_slot em event list).next ≡ em.next
unfolding put_slot
next-put_slot em event [] = refl
next-put_slot em event (h ∷ list) = refl

next-remove :
    (em : Emitter) (event : String) (keep : Handler → Bool) → (remove em event keep).next ≡ em.next
unfolding remove
next-remove em event keep = by_slot (lookup em.handlers event)
  where
    by_slot :
        (o : Option (List Handler))
        → (elim o as (λ x. Emitter) [
          | none ↦ em
          | some list ↦ put_slot em event (filter keep list)
        ]).next
          ≡ em.next
    by_slot none = refl
    by_slot (some list) = next-put_slot em event (filter keep list)

abbrev AreBelow : ℕ → List Handler → Type 0
AreBelow n = All (λ (h : Handler). h.id < n)

below_suc : (n : ℕ) (hs : List Handler) → AreBelow n hs → AreBelow (suc n) hs
below_suc n hs b = All-map (λ h l. omega arith) hs b

pub add-IsWellFormed :
    (em : Emitter) (event : String) (fn : ℕ) (one_time : Bool)
    → IsWellFormed em
    → IsWellFormed (add em event fn one_time)
add-IsWellFormed em event fn one_time w = record {
  distinct = λ other. rw (handlers_of-add em event other fn one_time) (
      if_elim HaveDistinctIds (str_eq event other) _ _
        (distinct-append em.next (handlers_of em event) _ refl (w.distinct event) (w.below event))
        (w.distinct other));
  below = λ other.
      rw (handlers_of-add em event other fn one_time, next-add em event fn one_time)
        (if_elim (AreBelow (suc em.next)) (str_eq event other) _ _
          (All-append _ (handlers_of em event) _
            (below_suc em.next (handlers_of em event) (w.below event)) (omega arith, tt))
          (below_suc em.next (handlers_of em other) (w.below other)));
}

pub remove-IsWellFormed :
    (em : Emitter) (event : String) (keep : Handler → Bool)
    → IsWellFormed em
    → IsWellFormed (remove em event keep)
remove-IsWellFormed em event keep w = record {
  distinct = λ other. rw (handlers_of-remove em event other keep) (
      if_elim HaveDistinctIds (str_eq event other) _ _
        (distinct-filter keep (handlers_of em event) (w.distinct event)) (w.distinct other));
  below = λ other.
      rw (handlers_of-remove em event other keep, next-remove em event keep)
        (if_elim (AreBelow em.next) (str_eq event other) _ _
          (filter-All _ keep (handlers_of em event) (w.below event)) (w.below other));
}

put_slot-IsWellFormed :
    (em : Emitter) (event : String) → IsWellFormed em → IsWellFormed (put_slot em event [])
put_slot-IsWellFormed em event w = record {
  distinct = λ other.
      rw (handlers_of-put_slot em event other [])
        (if_elim HaveDistinctIds (str_eq event other) _ _ tt (w.distinct other));
  below = λ other.
      rw (handlers_of-put_slot em event other [], next-put_slot em event [])
        (if_elim (AreBelow em.next) (str_eq event other) _ _ tt (w.below other));
}

cleared-IsWellFormed : (n : ℕ) → IsWellFormed (record { handlers = []; next = n })
unfolding handlers_of lookup
cleared-IsWellFormed n = record { distinct = λ event. tt; below = λ event. tt }

-- What a caller does to an emitter, besides `emit`.
pub data Operation : Type 0 where
  registers : String → ℕ → Operation
  registers_once : String → ℕ → Operation
  unregisters : String → ℕ → Operation
  clears : Option String → Operation

unfoldable pub apply : Operation → Emitter → Emitter
unfolding on once off
apply (registers event fn) em = on em event fn
apply (registers_once event fn) em = once em event fn
apply (unregisters event fn) em = off em event fn
apply (clears event) em = remove_all_listeners em event

unfoldable pub apply_all : List Operation → Emitter → Emitter
unfolding apply
apply_all [] em = em
apply_all (o ∷ os) em = apply_all os (apply o em)

pub apply-IsWellFormed :
    (o : Operation) (em : Emitter) → IsWellFormed em → IsWellFormed (apply o em)
unfolding apply on once off remove_all_listeners put_slot
apply-IsWellFormed (registers event fn) em w = add-IsWellFormed em event fn false w
apply-IsWellFormed (registers_once event fn) em w = add-IsWellFormed em event fn true w
apply-IsWellFormed (unregisters event fn) em w =
    remove-IsWellFormed em event (λ (h : Handler). not (h.fn == fn)) w
apply-IsWellFormed (clears none) em w = cleared-IsWellFormed em.next
apply-IsWellFormed (clears (some event)) em w = put_slot-IsWellFormed em event w

-- Whatever is registered, unregistered and cleared in a row, a well-formed emitter stays so: the
-- handlers of an event have identities of their own, below that of the next handler.
pub apply_all-IsWellFormed :
    (os : List Operation) (em : Emitter) → IsWellFormed em → IsWellFormed (apply_all os em)
unfolding apply_all
apply_all-IsWellFormed [] em w = w
apply_all-IsWellFormed (o ∷ os) em w =
    apply_all-IsWellFormed os (apply o em) (apply-IsWellFormed o em w)
