-- ===== src/Flags/Tests.antt =====
-- The evaluator and the change detection at concrete inputs.
use workos_node.Prelude.{
  ◌≡◌, refl, ◌↔◌, String, true, false, none, some, List, [], ◌∷◌, arith, eq_iff,
}
use mathlib.Core.Bool.{xor}
use workos_node.Js.{lookup}
use workos_node.Flags.{Target, Entry, Flags, Context}
use workos_node.Flags.Laws.{HasDistinctKeys}
use workos_node.Flags.Changes.{pairs, map_get, targets_changed, some_differs}
use workos_node.Flags.Changes.Targets.{targets_changed_iff}

abbrev beta : Entry
beta = record {
  slug = "beta";
  enabled = true;
  default_value = false;
  users = record { id = "user_1"; enabled = true } ∷ [];
  organizations = [];
}

abbrev flags : Flags
flags = ("beta", beta) ∷ []

abbrev context : Context
context = record { user_id = some "user_1"; organization_id = none }

no_entry : lookup flags "constructor" ≡ none
unfolding lookup
no_entry = refl

abbrev before : List Target
before = record { id = "a"; enabled = true } ∷ record { id = "b"; enabled = false } ∷ []

abbrev after : List Target
after = record { id = "b"; enabled = false } ∷ record { id = "a"; enabled = true } ∷ []

distinct_before : HasDistinctKeys (pairs before)
unfolding pairs
distinct_before = (((λ e. ground (arith, eq_iff "b" "a")), tt), (tt, tt))

distinct_after : HasDistinctKeys (pairs after)
unfolding pairs
distinct_after = (((λ e. ground (arith, eq_iff "a" "b")), tt), (tt, tt))

targets_changed_iff_example :
    (targets_changed before after ≡ false)
    ↔ ((id : String) → map_get (pairs before) id ≡ map_get (pairs after) id)
targets_changed_iff_example = targets_changed_iff before after distinct_before distinct_after

-- Equal ids hide a change: only one of the two targets of the old list is there in the new one.
duplicates_hide_change :
    targets_changed
      (record { id = "a"; enabled = true } ∷ record { id = "a"; enabled = true } ∷ [])
      (record { id = "a"; enabled = true } ∷ record { id = "b"; enabled = true } ∷ [])
    ≡ false
unfolding targets_changed some_differs pairs map_get xor
duplicates_hide_change = refl
