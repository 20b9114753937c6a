-- ===== src/Network/Cidr.antt =====
-- `net.ParseCIDR` of the standard library on IPv4 text, as NewManager uses it. IPv6 subnets are
-- not modelled.
use aetherium.Base.{
  ℕ, ◌+◌, ◌-◌, ◌*◌, ◌%◌, ◌^◌, Bool, false, ◌&&◌, ◌||◌, Option, none, some, List, [], ◌∷◌, ◌≡◌, refl,
  leb, ltb, ◌==◌, if◌then◌else◌, length, Text, text, split_on,
}
use aetherium.Network.Address.{Subnet}

is_digit : ℕ → Bool
is_digit c = leb 48 c && leb c 57

-- A decimal number, none for anything but digits.
number_from : ℕ → Text → Option ℕ
unfolding is_digit
number_from acc [] = some acc
number_from acc (c ∷ s) =
    let rest = number_from (acc * 10 + (c - 48)) s in if is_digit c then rest else none

number : Text → Option ℕ
unfolding number_from
number [] = none
number (c ∷ s) = number_from 0 (c ∷ s)

starts_with_zero : Text → Bool
starts_with_zero [] = false
starts_with_zero (c ∷ s) = c == 48

-- One to three digits up to 255, with no leading zero.
octet : Text → Option ℕ
unfolding number starts_with_zero
octet s =
    if ltb 3 (length s) || (ltb 1 (length s) && starts_with_zero s)
    then none
    else elim (number s) [ none ↦ none | some n ↦ if leb n 255 then some n else none ]

-- Byte `i` of an address under a mask of `bits` bits.
mask_byte : ℕ → ℕ → ℕ → ℕ
mask_byte bits i x =
    if leb (8 * (i + 1)) bits
    then x
    else if leb bits (8 * i)
    then 0
    else x - x % 2 ^ (8 * (i + 1) - bits)

network_of : ℕ → ℕ → ℕ → ℕ → ℕ → Subnet
unfolding mask_byte
network_of bits a b c d = record {
  a = mask_byte bits 0 a;
  b = mask_byte bits 1 b;
  c = mask_byte bits 2 c;
  d = mask_byte bits 3 d;
}

four : List Text → (ℕ → ℕ → ℕ → ℕ → Option Subnet) → Option Subnet
unfolding octet
four (p ∷ q ∷ r ∷ s ∷ []) k = elim (octet p) [
  | none ↦ none
  | some a ↦ elim (octet q) [
    | none ↦ none
    | some b ↦ elim (octet r) [
      | none ↦ none
      | some c ↦ elim (octet s) [ none ↦ none | some d ↦ k a b c d ]
    ]
  ]
]
four _ k = none

address_and_mask : List Text → Option Subnet
unfolding four network_of number
address_and_mask (addr ∷ bits ∷ []) = elim (number bits) [
  | none ↦ none
  | some n ↦
      if ltb 32 n then none else four (split_on b'.' addr) (λ a b c d. some (network_of n a b c d))
]
address_and_mask _ = none

-- The network that the text names, with the host bits cleared.
unfoldable pub parse_cidr : Text → Option Subnet
unfolding address_and_mask
parse_cidr s = address_and_mask (split_on b'/' s)

parse_cidr_example :
    parse_cidr (text "172.16.5.9/20") ≡ some (record { a = 172; b = 16; c = 0; d = 0 })
unfolding parse_cidr split_on
parse_cidr_example = refl

parse_cidr_leading_zero : parse_cidr (text "10.01.0.0/8") ≡ none
unfolding parse_cidr split_on
parse_cidr_leading_zero = refl
