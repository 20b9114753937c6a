-- ===== src/Network/Mac/Collisions.antt =====
-- When two VMs are given the same MAC address.
use aetherium.Base.{
  ℕ, ◌+◌, ◌*◌, ◌/◌, ◌%◌, ◌^◌, ◌<◌, ◌≡◌, refl, ap, ◌∙◌, sym, ◌↔◌, [], ◌∷◌, arith, take, drop, Text,
}
use aetherium.Network.Mac.{hash_from, hex_byte, generate_mac}

-- The hash as a polynomial in 31, with no overflow.
pub polynomial : ℕ → Text → ℕ
polynomial acc [] = acc
polynomial acc (c ∷ s) = polynomial (acc * 31 + c) s

-- Equal remainders stay equal along the text.
polynomial_mod :
    (x y : ℕ) (s : Text)
    → x % 2 ^ 24 ≡ y % 2 ^ 24
    → polynomial x s % 2 ^ 24 ≡ polynomial y s % 2 ^ 24
unfolding polynomial
polynomial_mod x y [] e = e
polynomial_mod x y (c ∷ s) e = polynomial_mod (x * 31 + c) (y * 31 + c) s (omega arith)

hash_from-polynomial : (x : ℕ) (s : Text) → hash_from x s % 2 ^ 24 ≡ polynomial x s % 2 ^ 24
unfolding hash_from polynomial
hash_from-polynomial x [] = refl
hash_from-polynomial x (c ∷ s) =
    hash_from-polynomial ((x * 31 + c) % 2 ^ 64) s
    ∙ polynomial_mod ((x * 31 + c) % 2 ^ 64) (x * 31 + c) s (omega arith)

hex_byte_injective : (a b : ℕ) → a < 256 → b < 256 → hex_byte a ≡ hex_byte b → a ≡ b
unfolding hex_byte
hex_byte_injective a b u v e = ground arith

-- The three bytes of the address that depend on the VM.
low_bytes :
    (x y : ℕ)
    → x % 256 ≡ y % 256
    → x / 256 % 256 ≡ y / 256 % 256
    → x / 65536 % 256 ≡ y / 65536 % 256
    → x % 2 ^ 24 ≡ y % 2 ^ 24
low_bytes x y a b c = omega arith

bytes_of_low :
    (x y : ℕ)
    → x % 2 ^ 24 ≡ y % 2 ^ 24
    → (x % 256 ≡ y % 256) × (x / 256 % 256 ≡ y / 256 % 256) × (x / 65536 % 256 ≡ y / 65536 % 256)
bytes_of_low x y e = (omega arith, omega arith, omega arith)

same_bytes :
    (s t : Text) → generate_mac s ≡ generate_mac t → hash_from 0 s % 2 ^ 24 ≡ hash_from 0 t % 2 ^ 24
unfolding generate_mac hex_byte
same_bytes s t e =
    let x = hash_from 0 s in
    let y = hash_from 0 t in
    low_bytes x y
      (hex_byte_injective (x % 256) (y % 256) (omega arith) (omega arith)
        (ap (λ m. take 2 (drop 15 m)) e))
      (hex_byte_injective (x / 256 % 256) (y / 256 % 256) (omega arith) (omega arith)
        (ap (λ m. take 2 (drop 12 m)) e))
      (hex_byte_injective (x / 65536 % 256) (y / 65536 % 256) (omega arith) (omega arith)
        (ap (λ m. take 2 (drop 9 m)) e))

same_mac :
    (s t : Text) → hash_from 0 s % 2 ^ 24 ≡ hash_from 0 t % 2 ^ 24 → generate_mac s ≡ generate_mac t
unfolding generate_mac
same_mac s t e = let (p, q, r) = bytes_of_low (hash_from 0 s) (hash_from 0 t) e in rw (p, q, r) refl

-- Two VMs are given the same MAC address exactly when the polynomials of their ids in 31 agree in the
-- low 24 bits: the wrap-around of the hash at 64 bits plays no part.
pub generate_mac_iff :
    (s t : Text)
    → (generate_mac s ≡ generate_mac t) ↔ (polynomial 0 s % 2 ^ 24 ≡ polynomial 0 t % 2 ^ 24)
generate_mac_iff s t = (
  λ e. sym (hash_from-polynomial 0 s) ∙ same_bytes s t e ∙ hash_from-polynomial 0 t,
  λ e. same_mac s t (hash_from-polynomial 0 s ∙ e ∙ sym (hash_from-polynomial 0 t)),
)
