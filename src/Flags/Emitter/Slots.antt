-- ===== src/Flags/Emitter/Slots.antt =====
-- The handlers of an event behind each operation of the emitter, and the ones that are dropped.
use workos_node.Prelude.{
  ℕ, String, Bool, false, not, ◌&&◌, Option, none, some, List, [], ◌∷◌, ◌++◌, ◌==◌, any, filter,
  filter-filter, filter_same, All, str_eq, eq_iff, ◌≡◌, refl, ap, ◌∙◌, ◌≢◌, All-of_each, All-map,
  if◌then◌else◌, arith,
}
use workos_node.Js.{lookup, assign}
use workos_node.Flags.Emitter.{Handler, Emitter, handlers_of, discard, add, put_slot, remove}

lookup-assign :
    (slots : List (String × List Handler)) (event other : String) (list : List Handler)
    → lookup (assign slots event list) other
      ≡ (if str_eq event other then some list else lookup slots other)
unfolding lookup assign
lookup-assign [] event other list = refl
lookup-assign ((k, l) ∷ rest) event other list =
    ground (
      arith,
      eq_iff k event,
      eq_iff k other,
      eq_iff event other,
      lookup-assign rest event other list,
    )

lookup-discard :
    (slots : List (String × List Handler)) (event other : String)
    → lookup (discard slots event) other ≡ (if str_eq event other then none else lookup slots other)
unfolding lookup discard
lookup-discard [] event other = ground arith
lookup-discard ((k, l) ∷ rest) event other =
    ground
      (arith, eq_iff k event, eq_iff k other, eq_iff event other, lookup-discard rest event other)

pub handlers_of-put_slot :
    (em : Emitter) (event other : String) (list : List Handler)
    → handlers_of (put_slot em event list) other
      ≡ (if str_eq event other then list else handlers_of em other)
unfolding handlers_of put_slot
handlers_of-put_slot em event other [] = ground (arith, lookup-discard em.handlers event other)
handlers_of-put_slot em event other (h ∷ list) =
    ground (arith, lookup-assign em.handlers event other (h ∷ list))

handlers_of-lookup :
    (em : Emitter) (event : String) (o : Option (List Handler))
    → lookup em.handlers event ≡ o
    → handlers_of em event ≡ (elim o [ none ↦ [] | some list ↦ list ])
unfolding handlers_of
handlers_of-lookup em event o e = rw (handlers_of, e) refl

pub handlers_of-remove :
    (em : Emitter) (event other : String) (keep : Handler → Bool)
    → handlers_of (remove em event keep) other
      ≡ (if str_eq event other then filter keep (handlers_of em event) else handlers_of em other)
unfolding remove
handlers_of-remove em event other keep = by_slot (lookup em.handlers event) refl
  where
    by_slot :
        (o : Option (List Handler))
        → lookup em.handlers event ≡ o
        → handlers_of
            (elim o [ none ↦ em | some list ↦ put_slot em event (filter keep list) ])
            other
          ≡ (if str_eq event other
              then filter keep (handlers_of em event)
              else handlers_of em other)
    by_slot none e =
        let empty : handlers_of em event ≡ [] = handlers_of-lookup em event none e in
        ground (arith, eq_iff event other)
    by_slot (some list) e =
        let here : handlers_of em event ≡ list = handlers_of-lookup em event (some list) e in
        rw here (handlers_of-put_slot em event other (filter keep list))

pub handlers_of-add :
    (em : Emitter) (event other : String) (fn : ℕ) (one_time : Bool)
    → handlers_of (add em event fn one_time) other ≡ (
        if str_eq event other
        then handlers_of em event ++ (record { fn = fn; once = one_time; id = em.next } ∷ [])
        else handlers_of em other)
unfolding add handlers_of
handlers_of-add em event other fn one_time = ground (
  arith,
  lookup-assign em.handlers event other
      (handlers_of em event ++ (record { fn = fn; once = one_time; id = em.next } ∷ [])),
)

abbrev pub HaveDistinctIds : List Handler → Type 0
HaveDistinctIds [] = Unit
HaveDistinctIds (h ∷ hs) = All (λ (k : Handler). k.id ≢ h.id) hs × HaveDistinctIds hs

-- Whether one of the handlers is removed when it is called, and is `c`.
abbrev pub dropped : List Handler → Handler → Bool
dropped hs c = any (λ (h : Handler). h.once && c.id == h.id) hs

dropped-none :
    (c : Handler) (hs : List Handler) → All (λ (k : Handler). k.id ≢ c.id) hs → dropped hs c ≡ false
dropped-none c [] d = refl
dropped-none c (h ∷ hs) d = ground (arith, dropped-none c hs, d.0)

dropped-cons :
    (h : Handler) (hs rest : List Handler)
    → All (λ (k : Handler). k.id ≢ h.id) rest
    → All (λ (c : Handler). dropped hs c ≡ c.once) rest
    → All (λ (c : Handler). dropped (h ∷ hs) c ≡ c.once) rest
dropped-cons h hs [] d o = tt
dropped-cons h hs (c ∷ rest) d o = (ground (arith, d.0, o.0), dropped-cons h hs rest d.1 o.1)

-- With distinct identities, the handlers that are dropped are those of `once`.
dropped-once :
    (hs : List Handler) → HaveDistinctIds hs → All (λ (c : Handler). dropped hs c ≡ c.once) hs
dropped-once [] d = tt
dropped-once (h ∷ hs) d =
    (ground (arith, dropped-none h hs d.0), dropped-cons h hs hs d.0 (dropped-once hs d.1))

pub handlers_of_same :
    (em : Emitter) (event other : String)
    → handlers_of em other
      ≡ (if str_eq event other then handlers_of em event else handlers_of em other)
handlers_of_same em event other = ground (arith, eq_iff event other)

abbrev pub stays : List Handler → Handler → Bool
stays hs c = not (dropped hs c)

pub stays-once :
    (hs : List Handler) → HaveDistinctIds hs → All (λ (c : Handler). stays hs c ≡ not c.once) hs
stays-once hs d = All-map (λ c e. ap not e) hs (dropped-once hs d)

-- Dropping one handler and then some.
pub filter-stays :
    (h : Handler) (hs cs : List Handler)
    → filter (stays hs) (filter (λ (c : Handler). not (h.once && c.id == h.id)) cs)
      ≡ filter (stays (h ∷ hs)) cs
filter-stays h hs cs =
    filter-filter (stays hs) (λ (c : Handler). not (h.once && c.id == h.id)) cs
    ∙ filter_same (λ c. not (h.once && c.id == h.id) && stays hs c) (stays (h ∷ hs)) cs
        (All-of_each _ (λ c. ground arith) cs)
