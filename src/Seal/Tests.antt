-- ===== src/Seal/Tests.antt =====
-- Sealing at a concrete input.
use workos_node.Prelude.{◌≡◌, [], ◌∷◌, ok}
use workos_node.Js.{coalesce}
use workos_node.Seal.{empty_object, seal_data, unseal_data}
use workos_node.Seal.Laws.{unseal_data-seal_data}
use workos_node.Seal.Toy.{toy_iron, toy_iron-IsIron, through_toy, kept_cookie}

unseal_data-seal_data_example :
    unseal_data toy_iron (seal_data toy_iron kept_cookie (b'p' ∷ [])) (b'p' ∷ [])
    ≡ ok (coalesce (through_toy kept_cookie) empty_object)
unseal_data-seal_data_example =
    unseal_data-seal_data toy_iron through_toy toy_iron-IsIron kept_cookie (b'p' ∷ [])
