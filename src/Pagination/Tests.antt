-- ===== src/Pagination/Tests.antt =====
-- A server of two pages.
use workos_node.Prelude.{ℕ, ◌≡◌, refl, false, [], ◌∷◌, ok, Result, arith}
use workos_node.Js.{undefined, str, truthy, assign, lookup}
use workos_node.Pagination.{Options, Page, Failure, option_of, page_options, auto_pagination}
use workos_node.Pagination.Laws.{joined, Serves, last, more, auto_pagination-joined}

abbrev first_page : Page ℕ
first_page = record { items = 1 ∷ 2 ∷ []; after = str "b" }

abbrev last_page : Page ℕ
last_page = record { items = 3 ∷ []; after = undefined }

abbrev server : Options → Result (Failure ℕ) (Page ℕ)
server options = elim (option_of options "after") [ str s ↦ ok last_page | _ ↦ ok first_page ]

abbrev options : Options
options = ("order", str "desc") ∷ []

running : Unit {0}
unfolding option_of page_options assign lookup truthy
running = tt

serves : Serves server options (option_of options "after") ((1 ∷ 2 ∷ []) ∷ (3 ∷ []) ∷ [])
unfolding running
serves = more undefined first_page _ refl refl (last (str "b") last_page refl refl)

unlimited : truthy (option_of options "limit") ≡ false
unfolding running
unlimited = refl

auto_pagination-joined_example :
    auto_pagination server 2 (record { page = first_page; options = options })
    ≡ ok (joined ((1 ∷ 2 ∷ []) ∷ (3 ∷ []) ∷ []))
auto_pagination-joined_example =
    auto_pagination-joined server options 2 first_page ((1 ∷ 2 ∷ []) ∷ (3 ∷ []) ∷ []) unlimited
      serves (omega arith)
