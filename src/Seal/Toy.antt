-- ===== src/Seal/Toy.antt =====
-- A sealing that keeps one bit of a value, in the place of iron: whether it holds a refresh token.
use workos_node.Prelude.{ℕ, ◌≡◌, refl, Bool, true, false, List, [], ◌∷◌, ◌==◌, arith, Result, ok}
use workos_node.Js.{Value, obj, end, field, str, truthy, prop}
use workos_node.Js.Text.{Avoids}
use workos_node.Seal.{SealError, Iron}
use workos_node.Seal.Laws.{IsIron}

abbrev pub kept_cookie : Value
kept_cookie = obj (
    field "refreshToken" (str "rt_1")
      (field "user" (obj (field "id" (str "user_1") end)) (field "accessToken" (str "at_1") end)))

abbrev toy_seal : Bool → List ℕ
toy_seal true = 1 ∷ []
toy_seal false = 0 ∷ []

abbrev toy_json : Bool → Value
toy_json true = kept_cookie
toy_json false = obj end

abbrev toy_unseal : List ℕ → Result SealError Value
toy_unseal [] = ok (obj end)
toy_unseal (c ∷ s) = ok (toy_json (c == 1))

abbrev pub through_toy : Value → Value
through_toy v = toy_json (truthy (prop v "refreshToken"))

abbrev pub toy_iron : Iron
toy_iron = record {
  seal = λ v password. toy_seal (truthy (prop v "refreshToken"));
  unseal = λ s password. toy_unseal s;
}

toy_opens : (b : Bool) → toy_unseal (toy_seal b) ≡ ok (toy_json b)
toy_opens true = refl
toy_opens false = refl

toy-Avoids : (b : Bool) → Avoids b'~' (toy_seal b)
toy-Avoids true = omega arith
toy-Avoids false = omega arith

pub toy_iron-IsIron : IsIron toy_iron through_toy
toy_iron-IsIron = record {
  no_tilde = λ v password. toy-Avoids (truthy (prop v "refreshToken"));
  opens = λ v password. toy_opens (truthy (prop v "refreshToken"));
}
