-- ===== src/Pagination/Laws.antt =====
-- What `autoPagination` collects.
use workos_node.Prelude.{
  ℕ, zero, suc, ◌≤◌, ◌≡◌, refl, true, false, List, [], ◌∷◌, ◌++◌, length, Result, ok, append-nil,
  arith,
}
use workos_node.Js.{Value, truthy}
use workos_node.Pagination.{
  Options, Page, Failure, option_of, page_options, generate_pages, auto_pagination,
}

abbrev pub joined {ℓ} : {R : Type ℓ} → List (List R) → List R
joined [] = []
joined (page ∷ pages) = page ++ joined pages

module _ {R E : Type 0} (api_call : Options → Result (Failure E) (Page R)) (options : Options) where
  -- The server has these pages from a cursor on: each names the next one, but the last.
  pub data Serves : Value → List (List R) → Type 0 where
    last :
        (after : Value) (page : Page R)
        → api_call (page_options options after) ≡ ok page
        → truthy page.after ≡ false
        → Serves after (page.items ∷ [])
    more :
        (after : Value) (page : Page R) (pages : List (List R))
        → api_call (page_options options after) ≡ ok page
        → truthy page.after ≡ true
        → Serves page.after pages
        → Serves after (page.items ∷ pages)

  generate_pages-joined :
      (fuel : ℕ) (after : Value) (pages : List (List R))
      → Serves after pages
      → length pages ≤ fuel
      → generate_pages api_call fuel options after ≡ ok (joined pages)
  unfolding generate_pages
  generate_pages-joined zero after _ (last _ page e done) h = absurd (omega arith)
  generate_pages-joined zero after _ (more _ page pages e next s) h = absurd (omega arith)
  generate_pages-joined (suc fuel) after _ (last _ page e done) h =
      rw (generate_pages, e, done, append-nil page.items) refl
  generate_pages-joined (suc fuel) after _ (more _ page pages e next s) h =
      rw (generate_pages, e, next, generate_pages-joined fuel page.after pages s (omega arith)) refl

  -- Automatic pagination of a list without a limit collects every page of the server in order, from
  -- the cursor of the options on, as soon as it may follow as many pages as there are.
  pub auto_pagination-joined :
      (fuel : ℕ) (first : Page R) (pages : List (List R))
      → truthy (option_of options "limit") ≡ false
      → Serves (option_of options "after") pages
      → length pages ≤ fuel
      → auto_pagination api_call fuel (record { page = first; options = options })
        ≡ ok (joined pages)
  unfolding auto_pagination
  auto_pagination-joined fuel first pages unlimited s h =
      rw (auto_pagination, unlimited)
        (generate_pages-joined fuel (option_of options "after") pages s h)
