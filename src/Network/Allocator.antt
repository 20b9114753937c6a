-- ===== src/Network/Allocator.antt =====
-- IPAllocator of services/core/pkg/network/network.go: AllocateIP and ReleaseIP over the host
-- offsets 2 to 254 of a subnet. The mutex makes each call atomic, so a call is a function.
pub mod Scan
pub mod Contract
use aetherium.Base.{
  ℕ, zero, suc, ◌+◌, ◌-◌, ◌%◌, Bool, true, false, Option, none, some, [], ◌++◌, ltb, if◌then◌else◌,
  Result, ok, err, Text, Map, lookup, insert, delete,
}
use aetherium.Network.Address.{Subnet, ip_string, mask, strip_mask}

pub record IpAllocator : Type 0 where
  pub subnet : Subnet
  pub allocated : Map Bool
  pub next_offset : ℕ

pub data AllocError : Type 0 where
  no_available_ips : AllocError

-- The allocator that `NewManager` makes. (.1 is the gateway.)
unfoldable pub new_allocator : Subnet → IpAllocator
new_allocator n = record { subnet = n; allocated = []; next_offset = 2 }

-- Go reads a missing key as false.
abbrev pub flag : Option Bool → Bool
flag none = false
flag (some b) = b

unfoldable pub is_allocated : IpAllocator → Text → Bool
is_allocated a ip = flag (lookup ip a.allocated)

-- The offset tried in round `i`, which wraps behind 254.
unfoldable pub offset_at : IpAllocator → ℕ → ℕ
offset_at a i =
    let offset = a.next_offset + i in if ltb 254 offset then 2 + (offset - 255) else offset

-- `ip[3] = byte(offset)`.
unfoldable pub ip_at : IpAllocator → ℕ → Text
ip_at a offset = ip_string a.subnet (offset % 256)

unfoldable pub claim : IpAllocator → ℕ → IpAllocator
unfolding ip_at
claim a offset = record a {
  allocated = insert (ip_at a offset) true a.allocated;
  next_offset = if ltb 254 (offset + 1) then 2 else offset + 1;
}

-- The loop from round `i` on, with the number of rounds left.
unfoldable pub scan_from : ℕ → ℕ → IpAllocator → Result AllocError Text × IpAllocator
unfolding offset_at ip_at is_allocated claim
scan_from zero i a = (err no_available_ips, a)
scan_from (suc left) i a =
    let rest = scan_from left (i + 1) a in
    let offset = offset_at a i in
    if is_allocated a (ip_at a offset) then rest else (ok (ip_at a offset ++ mask), claim a offset)

unfoldable pub allocate_ip : IpAllocator → Result AllocError Text × IpAllocator
unfolding scan_from
allocate_ip a = scan_from 253 0 a

unfoldable pub release_ip : Text → IpAllocator → IpAllocator
release_ip ip a = record a { allocated = delete (strip_mask ip) a.allocated }
