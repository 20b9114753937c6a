-- ===== src/Network/Allocator/Scan.antt =====
-- What the loop of AllocateIP finds, and that its rounds visit every offset from 2 to 254.
use aetherium.Base.{
  ℕ, zero, suc, ◌+◌, ◌-◌, ◌≤◌, ◌<◌, ◌≡◌, refl, ◌⊎◌, inl, inr, true, false, ◌++◌, arith, leb,
  if◌then◌else◌, Bool-cases, ok, err,
}
use aetherium.Network.Address.{mask}
use aetherium.Network.Allocator.{
  IpAllocator, no_available_ips, is_allocated, offset_at, ip_at, claim, scan_from,
}

-- The next offset to try lies in the pool.
pub record InRange (a : IpAllocator) : Type 0 where
  pub above : 2 ≤ a.next_offset
  pub below : a.next_offset ≤ 254

pub offset_at_bounds :
    (a : IpAllocator) (i : ℕ) → InRange a → i < 253 → (2 ≤ offset_at a i) × (offset_at a i ≤ 254)
unfolding offset_at
offset_at_bounds a i r h = ground arith

-- The round in which an offset is tried.
pub round_of : IpAllocator → ℕ → ℕ
round_of a x = if leb a.next_offset x then x - a.next_offset else x + 253 - a.next_offset

pub offset_at-round_of :
    (a : IpAllocator) (x : ℕ) → InRange a → 2 ≤ x → x ≤ 254 → offset_at a (round_of a x) ≡ x
unfolding offset_at round_of
offset_at-round_of a x r l u = ground arith

pub round_of-lt : (a : IpAllocator) (x : ℕ) → InRange a → 2 ≤ x → x ≤ 254 → round_of a x < 253
unfolding round_of
round_of-lt a x r l u = ground arith

abbrev pub IsFree : IpAllocator → ℕ → Type 0
IsFree a i = is_allocated a (ip_at a (offset_at a i)) ≡ false

abbrev pub IsTaken : IpAllocator → ℕ → Type 0
IsTaken a i = is_allocated a (ip_at a (offset_at a i)) ≡ true

-- The loop claims the address of a free round, or every round is taken.
abbrev pub Scanned : ℕ → ℕ → IpAllocator → Type 0
Scanned left i a =
    ((j : ℕ) × (j < i + left)
      × IsFree a j
      × (scan_from left i a ≡ (ok (ip_at a (offset_at a j) ++ mask), claim a (offset_at a j))))
    ⊎ (((j : ℕ) → i ≤ j → j < i + left → IsTaken a j)
        × (scan_from left i a ≡ (err no_available_ips, a)))

pub scan_from-Scanned : (left i : ℕ) (a : IpAllocator) → Scanned left i a
unfolding scan_from
scan_from-Scanned zero i a = inr (λ j l u. absurd (omega arith), refl)
scan_from-Scanned (suc left) i a = elim (Bool-cases (is_allocated a (ip_at a (offset_at a i)))) [
  | inl taken ↦ later taken (scan_from-Scanned left (i + 1) a)
  | inr free ↦ inl (i, omega arith, free, rw (free, scan_from))
]
  where
    later : IsTaken a i → Scanned left (i + 1) a → Scanned (suc left) i a
    later taken (inl (j, u, free, e)) = inl (j, omega arith, free, rw (taken, scan_from) e)
    later taken (inr (all, e)) = inr (every, rw (taken, scan_from) e)
      where
        every : (j : ℕ) → i ≤ j → j < i + suc left → IsTaken a j
        every j l u = elim (Bool-cases (leb (i + 1) j)) [
          | inl after ↦ all j (ground arith) (omega arith)
          | inr here ↦ let e : j ≡ i = ground arith in rw e taken
        ]
