-- ===== src/Crypto/Tests.antt =====
-- The crypto provider at concrete inputs.
use workos_node.Prelude.{ℕ, ◌≡◌, ◌↔◌, true, List, [], ◌∷◌, length}
use workos_node.Crypto.{encode, secure_compare}
use workos_node.Crypto.Hex.{secure_compare_iff}
use workos_node.Crypto.Toy.{toy_subtle, toy_subtle-IsHmac}

abbrev one_byte : List ℕ
one_byte = 0x1f ∷ []

secure_compare_iff_example : (secure_compare toy_subtle (b'a' ∷ []) (b'b' ∷ []) ≡ true) ↔ (
    (length (encode (b'a' ∷ [])) ≡ length (encode (b'b' ∷ [])))
    × (toy_subtle.sign toy_subtle.fresh (encode (b'a' ∷ []))
        ≡ toy_subtle.sign toy_subtle.fresh (encode (b'b' ∷ []))))
secure_compare_iff_example = secure_compare_iff toy_subtle toy_subtle-IsHmac (b'a' ∷ []) (b'b' ∷ [])
