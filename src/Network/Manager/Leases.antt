-- ===== src/Network/Manager/Leases.antt =====
-- The addresses that the TAP devices of a manager hold.
use aetherium.Base.{
  ℕ, ◌≡◌, ◌≢◌, text_eq_refl, refl, sym, ap, ◌∙◌, inl, inr, true, false, some, ◌++◌, arith,
  Bool-cases, Text, text_eq, text_eq_iff, lookup, insert, lookup-insert,
}
use aetherium.Network.Address.{Subnet, ip_string, mask, ip_string-mask_injective}
use aetherium.Network.Allocator.{IpAllocator, is_allocated}
use aetherium.Network.Allocator.Scan.{InRange}
use aetherium.Network.Allocator.Contract.{
  Claims, address, new_allocator-InRange, release_ip-Claims, release_ip-InRange, release_ip-subnet,
}
use aetherium.Network.Manager.{NetworkConfig, TapDevice, Manager, initial_manager}
use aetherium.Network.Manager.Tap.{release}

-- The device holds the pool address `x`, and the allocator knows.
pub record Holds (a : IpAllocator) (t : TapDevice) (x : ℕ) : Type 0 where
  pub named : t.ip_address ≡ address a x ++ mask
  pub taken : is_allocated a (address a x) ≡ true

-- Every device holds an address of the pool, and no two VMs share one.
pub record IsValid (m : Manager) : Type 0 where
  pub in_range : InRange m.ip_allocator
  pub holds :
      (v : Text) (t : TapDevice)
      → lookup v m.tap_devices ≡ some t
      → (x : ℕ) × Holds m.ip_allocator t x
  pub distinct :
      (v v' : Text) (t t' : TapDevice)
      → lookup v m.tap_devices ≡ some t
      → lookup v' m.tap_devices ≡ some t'
      → t.ip_address ≡ t'.ip_address
      → v ≡ v'

-- The two managers have the same devices and the same taken addresses.
pub record SameLeases (m m' : Manager) : Type 0 where
  pub same_taps : m'.tap_devices ≡ m.tap_devices
  pub same_subnet : m'.ip_allocator.subnet ≡ m.ip_allocator.subnet
  pub same_allocated : (t : Text) → is_allocated m'.ip_allocator t ≡ is_allocated m.ip_allocator t
  pub still_in_range : InRange m'.ip_allocator

-- A lease stays good in an allocator of the same subnet in which the address is still taken.
pub Holds-mono :
    (a a' : IpAllocator) (t : TapDevice) (x : ℕ)
    → a'.subnet ≡ a.subnet
    → is_allocated a' (address a x) ≡ true
    → Holds a t x
    → Holds a' t x
Holds-mono a a' t x e taken held =
    let q : address a' x ≡ address a x = ap (λ n. ip_string n x) e in
    record { named = rw q held.named; taken = rw q taken }

pub SameLeases-IsValid : {m m' : Manager} → SameLeases m m' → IsValid m → IsValid m'
SameLeases-IsValid {m} {m'} s v = record {
  in_range = s.still_in_range;
  holds = λ k t e.
      let (x, held) = v.holds k t (rw (← s.same_taps) e) in
      (
        x,
        Holds-mono m.ip_allocator m'.ip_allocator t x s.same_subnet
            (s.same_allocated _ ∙ held.taken) held,
      );
  distinct = λ k k' t t' e e'. v.distinct k k' t t' (rw (← s.same_taps) e) (rw (← s.same_taps) e');
}

-- A free address is held by no device.
pub free_unheld :
    (m : Manager) (x : ℕ) (k : Text) (t : TapDevice)
    → IsValid m
    → is_allocated m.ip_allocator (address m.ip_allocator x) ≡ false
    → lookup k m.tap_devices ≡ some t
    → t.ip_address ≢ address m.ip_allocator x ++ mask
free_unheld m x k t v free e q =
    let (y, held) = v.holds k t e in
    let same =
      ip_string-mask_injective m.ip_allocator.subnet m.ip_allocator.subnet y x
        (sym held.named ∙ q) in
    cc (same, held.taken, free)

-- The manager with a new device and the allocator that has claimed its address.
abbrev pub installed : Manager → IpAllocator → Text → TapDevice → Manager
installed m a vm_id tap = record m {
  ip_allocator = a;
  tap_devices = insert vm_id tap m.tap_devices;
}

module _ (m : Manager) (a : IpAllocator) (vm_id : Text) (tap : TapDevice) (x : ℕ) (v : IsValid m)
    (c : Claims m.ip_allocator a x)
    (named : tap.ip_address ≡ address m.ip_allocator x ++ mask) where
  claimed : (y : ℕ) → y ≡ x → is_allocated a (address m.ip_allocator y) ≡ true
  claimed y e =
      rw e (c.now_taken (address m.ip_allocator x) ∙ rw (text_eq_refl (address m.ip_allocator x)))

  installed-Holds :
      (k : Text) (t : TapDevice)
      → lookup k (insert vm_id tap m.tap_devices) ≡ some t
      → (y : ℕ) × Holds a t y
  installed-Holds k t e = elim (Bool-cases (text_eq vm_id k)) [
    | inl here ↦
        let q : tap ≡ t = ground (arith, lookup-insert vm_id k tap m.tap_devices) in
        let r : address a x ≡ address m.ip_allocator x = ap (λ n. ip_string n x) c.same_subnet in
        (x, record { named = rw (← q, r) named; taken = rw r (claimed x refl) })
    | inr other ↦
        let (y, held) = v.holds k t (ground (arith, lookup-insert vm_id k tap m.tap_devices)) in
        let taken : is_allocated a (address m.ip_allocator y) ≡ true =
          ground (arith, c.now_taken (address m.ip_allocator y), held.taken) in
        (y, Holds-mono m.ip_allocator a t y c.same_subnet taken held)
  ]

  installed-distinct :
      (k k' : Text) (t t' : TapDevice)
      → lookup k (insert vm_id tap m.tap_devices) ≡ some t
      → lookup k' (insert vm_id tap m.tap_devices) ≡ some t'
      → t.ip_address ≡ t'.ip_address
      → k ≡ k'
  installed-distinct k k' t t' e e' q = ground (
    arith,
    lookup-insert vm_id k tap m.tap_devices,
    lookup-insert vm_id k' tap m.tap_devices,
    text_eq_iff vm_id k,
    text_eq_iff vm_id k',
    v.distinct k k' t t',
    free_unheld m x k t v c.was_free,
    free_unheld m x k' t' v c.was_free,
    named,
  )

  pub installed-IsValid : IsValid (installed m a vm_id tap)
  installed-IsValid = record {
    in_range = c.next_in_range;
    holds = installed-Holds;
    distinct = installed-distinct;
  }

-- Taking back a newly claimed address leaves the leases as they were.
pub released-SameLeases :
    (m : Manager) (a : IpAllocator) (x : ℕ)
    → Claims m.ip_allocator a x
    → SameLeases m (release (address m.ip_allocator x ++ mask) (record m { ip_allocator = a }))
unfolding release
released-SameLeases m a x c = record {
  same_taps = refl;
  same_subnet = release_ip-subnet (address m.ip_allocator x ++ mask) a ∙ c.same_subnet;
  same_allocated = λ t. release_ip-Claims m.ip_allocator a x t c;
  still_in_range = release_ip-InRange (address m.ip_allocator x ++ mask) a c.next_in_range;
}

-- A manager with no device is valid.
pub initial_manager-IsValid : (c : NetworkConfig) (n : Subnet) → IsValid (initial_manager c n)
unfolding initial_manager lookup
initial_manager-IsValid c n = record {
  in_range = new_allocator-InRange n;
  holds = λ k t e. cc;
  distinct = λ k k' t t' e. cc;
}
