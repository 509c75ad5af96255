-- ===== src/Pagination.antt =====
-- src/common/utils/pagination.ts: `AutoPaginatable`. The call of the API is a parameter; so is how
-- many pages are followed at most, since a server may go on for ever.
pub mod Laws
mod Tests
use workos_node.Prelude.{
  ℕ, zero, suc, String, Option, none, some, List, ◌++◌, if◌then◌else◌, Result, ok, err, ◌>>=◌,
}
use workos_node.Js.{Value, num, undefined, truthy, assign, lookup}

-- The options of a list call, an object by its fields.
abbrev pub Options : Type 0
Options = List (String × Value)

-- `options.name`
unfoldable pub option_of : Options → String → Value
option_of options name = elim (lookup options name) [ none ↦ undefined | some v ↦ v ]

-- A `List`: the data, and `listMetadata.after`.
pub record Page (R : Type 0) : Type 0 where
  pub items : List R
  pub after : Value

-- `failed` is what the call throws; `stuck` is no value of the source.
pub data Failure (E : Type 0) : Type 0 where
  failed : E → Failure E
  stuck : Failure E

pub record AutoPaginatable (R : Type 0) : Type 0 where
  pub page : Page R
  pub options : Options

-- `{ ...this.options, limit: 100, after }`
unfoldable pub page_options : Options → Value → Options
page_options options after = assign (assign options "limit" (num 100)) "after" after

module _ {R E : Type 0} (api_call : Options → Result (Failure E) (Page R)) where
  -- A page, and what is behind it if it names a next one.
  abbrev pub followed : Page R → Result (Failure E) (List R) → Result (Failure E) (List R)
  followed result rest =
      if truthy result.after then (rest >>= λ more. ok (result.items ++ more)) else ok result.items

  -- What `generatePages` yields, joined.
  unfoldable pub generate_pages : ℕ → Options → Value → Result (Failure E) (List R)
  generate_pages zero options after = err stuck
  generate_pages (suc fuel) options after = api_call (page_options options after) >>= λ result.
      followed result (generate_pages fuel options result.after)

  unfoldable pub auto_pagination : ℕ → AutoPaginatable R → Result (Failure E) (List R)
  auto_pagination fuel list =
      let all = generate_pages fuel list.options (option_of list.options "after") in
      if truthy (option_of list.options "limit") then ok list.page.items else all
