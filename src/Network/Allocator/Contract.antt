-- ===== src/Network/Allocator/Contract.antt =====
-- What the clients of the allocator rely on.
use aetherium.Base.{
  ℕ, ◌≤◌, ◌%◌, ◌≡◌, refl, ◌↔◌, ◌⊎◌, inl, inr, true, false, ◌++◌, arith, if◌then◌else◌, ok, err,
  Text, text_eq, text_eq_iff, lookup-insert, lookup-delete,
}
use aetherium.Network.Address.{
  Subnet, ip_string, ip_string_pos, mask, strip_mask, strip_mask-append,
}
use aetherium.Network.Allocator.{
  IpAllocator, no_available_ips, new_allocator, is_allocated, offset_at, ip_at, claim, allocate_ip,
  release_ip,
}
use aetherium.Network.Allocator.Scan.{
  InRange, offset_at_bounds, round_of, offset_at-round_of, round_of-lt, scan_from-Scanned,
}

pub new_allocator-InRange : (n : Subnet) → InRange (new_allocator n)
unfolding new_allocator
new_allocator-InRange n = record { above = omega arith; below = omega arith }

-- The text of a pool address.
abbrev pub address : IpAllocator → ℕ → Text
address a x = ip_string a.subnet x

-- `a'` has just claimed the free pool address `x` of `a`, and nothing else has changed.
pub record Claims (a a' : IpAllocator) (x : ℕ) : Type 0 where
  pub above : 2 ≤ x
  pub below : x ≤ 254
  pub was_free : is_allocated a (address a x) ≡ false
  pub same_subnet : a'.subnet ≡ a.subnet
  pub now_taken :
      (t : Text) → is_allocated a' t ≡ (if text_eq (address a x) t then true else is_allocated a t)
  pub next_in_range : InRange a'

is_allocated-claim :
    (a : IpAllocator) (x : ℕ) (t : Text)
    → is_allocated (claim a x) t ≡ (if text_eq (ip_at a x) t then true else is_allocated a t)
unfolding is_allocated claim
is_allocated-claim a x t = ground (arith, lookup-insert (ip_at a x) t true a.allocated)

claim-subnet : (a : IpAllocator) (x : ℕ) → (claim a x).subnet ≡ a.subnet
unfolding claim
claim-subnet a x = refl

claim-InRange : (a : IpAllocator) (x : ℕ) → 2 ≤ x → x ≤ 254 → InRange (claim a x)
unfolding claim
claim-InRange a x l u = ground arith

ip_at-address : (a : IpAllocator) (x : ℕ) → x ≤ 254 → ip_at a x ≡ address a x
unfolding ip_at
ip_at-address a x u = let e : x % 256 ≡ x = omega arith in rw e

claim-Claims :
    (a : IpAllocator) (x : ℕ)
    → 2 ≤ x
    → x ≤ 254
    → is_allocated a (ip_at a x) ≡ false
    → Claims a (claim a x) x
claim-Claims a x l u free = record {
  above = l;
  below = u;
  was_free = rw (← ip_at-address a x u) free;
  same_subnet = claim-subnet a x;
  now_taken = λ t. rw (← ip_at-address a x u) (is_allocated-claim a x t);
  next_in_range = claim-InRange a x l u;
}

-- AllocateIP either claims a free address of the pool and returns it with its mask, or fails with
-- every address taken and changes nothing.
pub allocate_ip_cases :
    (a : IpAllocator)
    → InRange a
    → ((x : ℕ) × (a' : IpAllocator) × Claims a a' x
        × (allocate_ip a ≡ (ok (address a x ++ mask), a')))
      ⊎ (((x : ℕ) → 2 ≤ x → x ≤ 254 → is_allocated a (address a x) ≡ true)
          × (allocate_ip a ≡ (err no_available_ips, a)))
unfolding allocate_ip
allocate_ip_cases a r = elim (scan_from-Scanned 253 0 a) [
  | inl (j, u, free, e) ↦
      let (low, high) = offset_at_bounds a j r (omega arith) in
      inl (
        offset_at a j,
        claim a (offset_at a j),
        claim-Claims a (offset_at a j) low high free,
        rw (← ip_at-address a (offset_at a j) high) e,
      )
  | inr (all, e) ↦ inr (
    λ x l u.
        let taken = all (round_of a x) (omega arith) (omega (arith, round_of-lt a x r l u)) in
        rw (← ip_at-address a x u) (rw (offset_at-round_of a x r l u) at taken),
    e,
  )
]

-- It fails exactly when all of the 253 addresses are taken.
pub allocate_ip-err_iff :
    (a : IpAllocator)
    → InRange a
    → (allocate_ip a ≡ (err no_available_ips, a))
      ↔ ((x : ℕ) → 2 ≤ x → x ≤ 254 → is_allocated a (address a x) ≡ true)
allocate_ip-err_iff a r = elim (allocate_ip_cases a r) [
  | inl (x, a', c, e) ↦ (λ f. cc, λ all. cc (c.was_free, all x c.above c.below))
  | inr (all, e) ↦ (λ _. all, λ _. e)
]

is_allocated-release_ip :
    (ip : Text) (a : IpAllocator) (t : Text)
    → is_allocated (release_ip ip a) t
      ≡ (if text_eq (strip_mask ip) t then false else is_allocated a t)
unfolding is_allocated release_ip
is_allocated-release_ip ip a t = ground (arith, lookup-delete (strip_mask ip) t a.allocated)

-- Releasing an address in the form in which it was handed out frees that address only.
pub release_ip-address :
    (a : IpAllocator) (n : Subnet) (x : ℕ) (t : Text)
    → is_allocated (release_ip (ip_string n x ++ mask) a) t
      ≡ (if text_eq (ip_string n x) t then false else is_allocated a t)
release_ip-address a n x t =
    rw (strip_mask-append (ip_string n x) (ip_string_pos n x)) at
      (is_allocated-release_ip (ip_string n x ++ mask) a t)

pub release_ip-Claims :
    (a a' : IpAllocator) (x : ℕ) (t : Text)
    → Claims a a' x
    → is_allocated (release_ip (address a x ++ mask) a') t ≡ is_allocated a t
release_ip-Claims a a' x t c = ground (
  arith,
  release_ip-address a' a.subnet x t,
  c.now_taken t,
  c.was_free,
  text_eq_iff (address a x) t,
)

pub release_ip-InRange : (ip : Text) (a : IpAllocator) → InRange a → InRange (release_ip ip a)
unfolding release_ip
release_ip-InRange ip a r = record { above = r.above; below = r.below }

pub release_ip-subnet : (ip : Text) (a : IpAllocator) → (release_ip ip a).subnet ≡ a.subnet
unfolding release_ip
release_ip-subnet ip a = refl

-- Releasing what was just allocated gives back the allocations of before.
pub release_ip-allocate_ip :
    (a a' : IpAllocator) (ip : Text)
    → InRange a
    → allocate_ip a ≡ (ok ip, a')
    → (t : Text) → is_allocated (release_ip ip a') t ≡ is_allocated a t
release_ip-allocate_ip a a' ip r e t = elim (allocate_ip_cases a r) [
  | inl (x, b, c, f) ↦ let (p, q) = same x b f in rw (p, q) (release_ip-Claims a b x t c)
  | inr (all, f) ↦ cc
]
  where
    same :
        (x : ℕ) (b : IpAllocator)
        → allocate_ip a ≡ (ok (address a x ++ mask), b)
        → (ip ≡ address a x ++ mask) × (a' ≡ b)
    same x b f = (cc, cc)
