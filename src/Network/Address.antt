-- ===== src/Network/Address.antt =====
-- The text of an IPv4 address and of its mask suffix (services/core/pkg/network/network.go), as
-- `net.IP.String` prints it.
use aetherium.Base.{
  ℕ, ◌-◌, ◌<◌, ◌≡◌, refl, ap, sym, ◌∙◌, ◌&&◌, [], ◌∷◌, ◌++◌, arith, ltb, if◌then◌else◌, length,
  take, drop, length-append, take-append, drop-append, Text, text, text_eq, text_eq_refl, itoa,
  itoa_injective,
}

-- The subnet's address, `a.b.c.d`, of which the allocator overwrites the last byte.
pub record Subnet : Type 0 where
  pub a : ℕ
  pub b : ℕ
  pub c : ℕ
  pub d : ℕ

unfoldable pub ip_prefix : Subnet → Text
ip_prefix n = itoa n.a ++ (b'.' ∷ (itoa n.b ++ (b'.' ∷ (itoa n.c ++ (b'.' ∷ [])))))

-- `ip[3] = last; ip.String()`.
unfoldable pub ip_string : Subnet → ℕ → Text
unfolding ip_prefix
ip_string n last = ip_prefix n ++ itoa last

abbrev pub mask : Text
mask = text "/24"

-- `s[:len(s)-3]` if that leaves something and the suffix is "/24".
pub strip_mask : Text → Text
strip_mask s =
    let idx = length s - 3 in
    if ltb 3 (length s) && text_eq (drop idx s) mask then take idx s else s

append_cancel : (xs ys zs : Text) → xs ++ ys ≡ xs ++ zs → ys ≡ zs
append_cancel [] ys zs e = e
append_cancel (x ∷ xs) ys zs e = append_cancel xs ys zs (cc)

pub ip_string_injective : (n : Subnet) (x y : ℕ) → ip_string n x ≡ ip_string n y → x ≡ y
unfolding ip_string
ip_string_injective n x y e = itoa_injective x y (append_cancel (ip_prefix n) (itoa x) (itoa y) e)

length-cons_append : (s t : Text) (x : ℕ) → 0 < length (s ++ (x ∷ t))
length-cons_append s t x = omega (arith, length-append s (x ∷ t))

pub ip_string_pos : (n : Subnet) (x : ℕ) → 0 < length (ip_string n x)
unfolding ip_string
ip_string_pos n x = omega (
  arith,
  length-append (ip_prefix n) (itoa x),
  length-cons_append (itoa n.a) (itoa n.b ++ (b'.' ∷ (itoa n.c ++ (b'.' ∷ [])))) b'.',
)

-- The mask that was put behind an address comes off again.
pub strip_mask-append : (s : Text) → 0 < length s → strip_mask (s ++ mask) ≡ s
unfolding strip_mask
strip_mask-append s h = rw (e) (
    rw (drop-append s mask, take-append s mask)
      (ground (arith, length-append s mask, text_eq_refl mask)))
  where
    e : length (s ++ mask) - 3 ≡ length s
    e = omega (arith, length-append s mask)

-- So the address can be read off its form with the mask.
pub ip_string-mask_injective :
    (n n' : Subnet) (x y : ℕ)
    → ip_string n x ++ mask ≡ ip_string n' y ++ mask
    → ip_string n x ≡ ip_string n' y
ip_string-mask_injective n n' x y e =
    sym (strip_mask-append (ip_string n x) (ip_string_pos n x))
    ∙ ap strip_mask e
    ∙ strip_mask-append (ip_string n' y) (ip_string_pos n' y)

ip_string_example : ip_string (record { a = 172; b = 16; c = 0; d = 0 }) 254 ≡ text "172.16.0.254"
unfolding ip_string itoa
ip_string_example = refl

strip_mask_example : strip_mask (text "10.0.0.7/24") ≡ text "10.0.0.7"
unfolding strip_mask text_eq
strip_mask_example = refl
