-- ===== src/Crypto/Toy.antt =====
-- A small message authentication code of 32 bytes, in the place of HMAC: a checksum of the message
-- and one of the key.
use workos_node.Prelude.{
  ℕ, zero, suc, ◌+◌, ◌-◌, ◌*◌, ◌%◌, ◌≡◌, refl, ap, some, List, [], ◌∷◌, ◌++◌, arith, length, take,
  take-append, length-append, All, All-append,
}
use workos_node.Js.{same_codes}
use workos_node.Js.Text.{same_codes_iff}
use workos_node.Crypto.{Subtle}
use workos_node.Crypto.Hex.{IsByte, IsHmac}
use workos_node.Crypto.Aes.{IsAead, IsRandom}

abbrev checksum : List ℕ → ℕ
checksum [] = 0
checksum (c ∷ s) = c + 3 * checksum s

abbrev pub zeros : ℕ → List ℕ
zeros zero = []
zeros (suc n) = 0 ∷ zeros n

abbrev toy_sign : List ℕ → List ℕ → List ℕ
toy_sign key message = checksum message % 256 ∷ checksum key % 256 ∷ zeros 30

abbrev pub toy_subtle : Subtle
toy_subtle = record {
  sign = toy_sign;
  verify = λ key sig message. same_codes sig (toy_sign key message);
  fresh = 7 ∷ [];
  seal = λ key iv extra message. some (message ++ zeros 16);
  open_sealed = λ key iv extra message. some (take (length message - 16) message);
}

pub toy_subtle-IsHmac : IsHmac toy_subtle
toy_subtle-IsHmac = record {
  size = λ key message. refl;
  bytes = λ key message. omega arith;
  checks = λ key sig message. same_codes_iff sig (toy_sign key message);
}

length-zeros : (n : ℕ) → length (zeros n) ≡ n
length-zeros zero = refl
length-zeros (suc n) = omega (arith, length-zeros n)

zeros-All : (n : ℕ) → All IsByte (zeros n)
zeros-All zero = tt
zeros-All (suc n) = (omega arith, zeros-All n)

pub zeros-IsRandom : IsRandom zeros
zeros-IsRandom = record { size = length-zeros; bytes = zeros-All }

without_zeros :
    (message : List ℕ) → take (length (message ++ zeros 16) - 16) (message ++ zeros 16) ≡ message
without_zeros message =
    let size : length (message ++ zeros 16) - 16 ≡ length message =
      omega (arith, length-append message (zeros 16), length-zeros 16) in
    rw size (take-append message (zeros 16))

pub toy_subtle-IsAead : IsAead toy_subtle
toy_subtle-IsAead = record {
  size = λ key iv plaintext bytes aad e. ground (arith, length-append plaintext (zeros 16));
  bytes = λ key iv plaintext bytes aad small e.
      let whole : All IsByte (plaintext ++ zeros 16) =
        All-append IsByte plaintext (zeros 16) small (zeros-All 16) in
      let same : plaintext ++ zeros 16 ≡ bytes = ground arith in rw (← same) whole;
  opens = λ key iv plaintext bytes aad e.
      let same : plaintext ++ zeros 16 ≡ bytes = ground arith in
      rw (← same) (ap some (without_zeros plaintext));
}
