-- ===== src/Network/Mac.antt =====
-- generateMAC of services/core/pkg/network/network.go. The ids are the text of UUIDs, so a rune is a
-- byte; `int` has 64 bits, and the shifts and masks read the bits of its pattern.
pub mod Collisions
use aetherium.Base.{
  ℕ, ◌+◌, ◌*◌, ◌/◌, ◌%◌, ◌^◌, ◌≡◌, refl, List, [], ◌∷◌, ◌++◌, ltb, if◌then◌else◌, Text, text,
}

unfoldable pub hash_from : ℕ → Text → ℕ
hash_from hash [] = hash
hash_from hash (c ∷ s) = hash_from ((hash * 31 + c) % 2 ^ 64) s

hex_digit : ℕ → ℕ
hex_digit d = if ltb d 10 then 48 + d else 87 + d

-- `%02x` of a byte.
unfoldable pub hex_byte : ℕ → Text
unfolding hex_digit
hex_byte b = hex_digit (b / 16) ∷ hex_digit (b % 16) ∷ []

unfoldable pub generate_mac : Text → Text
unfolding hash_from hex_byte
generate_mac vm_id =
    let hash = hash_from 0 vm_id in
    text "52:54:00:"
    ++ (hex_byte (hash / 65536 % 256)
        ++ (b':' ∷ (hex_byte (hash / 256 % 256) ++ (b':' ∷ hex_byte (hash % 256)))))

generate_mac_example : generate_mac (text "ab") ≡ text "52:54:00:00:0c:21"
unfolding generate_mac
generate_mac_example = refl
