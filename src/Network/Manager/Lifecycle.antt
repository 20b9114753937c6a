-- ===== src/Network/Manager/Lifecycle.antt =====
-- CreateTAPDevice and DeleteTAPDevice keep the leases in order, on every branch.
use aetherium.Base.{
  ℕ, ◌≡◌, refl, ◌∙◌, ◌⊎◌, inl, inr, true, none, some, ◌++◌, arith, if◌then◌else◌, Option-cases,
  Result, ok, err, is_err, Text, text_eq, text_eq_iff, text_eq_refl, lookup, insert, lookup-insert,
}
use aetherium.Network.Address.{mask}
use aetherium.Network.Allocator.{IpAllocator}
use aetherium.Network.Allocator.Contract.{Claims, address, allocate_ip_cases}
use aetherium.Network.Host.{Host}
use aetherium.Network.Manager.{TapDevice, Manager, NetworkError}
use aetherium.Network.Manager.Leases.{
  IsValid, SameLeases, SameLeases-IsValid, installed, installed-IsValid, released-SameLeases,
}
use aetherium.Network.Manager.Tap.{new_tap, release, set_up_tap, use_allocation, create_tap_device}

-- The three ways in which a call of CreateTAPDevice ends.
pub data Created {W : Type 0} (vm_id : Text) (m : Manager)
    (r : Result NetworkError TapDevice × Manager × W) : Type 0 where
  existing :
      (t : TapDevice)
      → lookup vm_id m.tap_devices ≡ some t
      → r.0 ≡ ok t
      → r.1 ≡ m
      → Created vm_id m r
  added :
      (x : ℕ) (a : IpAllocator)
      → Claims m.ip_allocator a x
      → lookup vm_id m.tap_devices ≡ none
      → r.0 ≡ ok (new_tap vm_id (address m.ip_allocator x ++ mask) m)
      → r.1 ≡ installed m a vm_id (new_tap vm_id (address m.ip_allocator x ++ mask) m)
      → Created vm_id m r
  failed :
      is_err r.0 ≡ true → lookup vm_id m.tap_devices ≡ none → SameLeases m r.1 → Created vm_id m r

-- What the steps behind a successful allocation lead to.
abbrev pub SetUp :
    {W : Type 0} (vm_id ip : Text) (m : Manager)
    → Result NetworkError TapDevice × Manager × W
    → Type 0
SetUp vm_id ip m r =
    ((r.0 ≡ ok (new_tap vm_id ip m))
      × (r.1 ≡ record m { tap_devices = insert vm_id (new_tap vm_id ip m) m.tap_devices }))
    ⊎ ((is_err r.0 ≡ true) × (r.1 ≡ release ip m))

module _ {W : Type 0} (h : Host W) where
  pub set_up_tap_cases :
      (vm_id ip : Text) (m : Manager) (w : W) → SetUp vm_id ip m (set_up_tap h vm_id ip m w)
  unfolding set_up_tap
  set_up_tap_cases vm_id ip m w = ground arith

  Created-set_up_tap :
      (vm_id : Text) (m : Manager) (w : W) (x : ℕ) (a : IpAllocator)
      → lookup vm_id m.tap_devices ≡ none
      → Claims m.ip_allocator a x
      → Created vm_id m
          (set_up_tap h vm_id (address m.ip_allocator x ++ mask) (record m { ip_allocator = a }) w)
  unfolding new_tap
  Created-set_up_tap vm_id m w x a e c =
      elim (set_up_tap_cases vm_id (address m.ip_allocator x ++ mask)
        (record m { ip_allocator = a }) w) [
          | inl (p, q) ↦ added x a c e p q
          | inr (p, q) ↦ failed p e (rw q (released-SameLeases m a x c))
        ]

  pub create_tap_device_cases :
      (vm_id : Text) (m : Manager) (w : W)
      → IsValid m
      → Created vm_id m (create_tap_device h vm_id m w)
  unfolding create_tap_device
  create_tap_device_cases vm_id m w v = elim (Option-cases (lookup vm_id m.tap_devices)) [
    | inr (t, e) ↦ rw (e, create_tap_device) (existing t e refl refl)
    | inl e ↦ elim (allocate_ip_cases m.ip_allocator v.in_range) [
      | inl (x, a, c, f) ↦
          rw (e, f, use_allocation, create_tap_device) (Created-set_up_tap vm_id m w x a e c)
      | inr (all, f) ↦
          rw (e, f, use_allocation, create_tap_device)
            (failed refl e (record {
              same_taps = refl;
              same_subnet = refl;
              same_allocated = λ t. refl;
              still_in_range = v.in_range;
            }))
    ]
  ]

  create_existing :
      (vm_id : Text) (m : Manager) (w : W) (t : TapDevice)
      → lookup vm_id m.tap_devices ≡ some t
      → create_tap_device h vm_id m w ≡ (ok t, m, w)
  unfolding create_tap_device
  create_existing vm_id m w t e = rw (e, create_tap_device)

  -- Creating a device keeps the manager valid, whatever the commands answer.
  pub create_tap_device-IsValid :
      (vm_id : Text) (m : Manager) (w : W) → IsValid m → IsValid (create_tap_device h vm_id m w).1
  unfolding new_tap
  create_tap_device-IsValid vm_id m w v = elim (create_tap_device_cases vm_id m w v) [
    | existing t e p q ↦ rw q v
    | added x a c e p q ↦ rw q (installed-IsValid m a vm_id _ x v c refl)
    | failed p e s ↦ SameLeases-IsValid s v
  ]

  -- A failed creation leaves the devices and the taken addresses as they were.
  pub create_tap_device_failed :
      (vm_id : Text) (m : Manager) (w : W) (e : NetworkError)
      → IsValid m
      → (create_tap_device h vm_id m w).0 ≡ err e
      → SameLeases m (create_tap_device h vm_id m w).1
  create_tap_device_failed vm_id m w e v f = elim (create_tap_device_cases vm_id m w v) [
    | existing t _ p q ↦ cc
    | added x a c _ p q ↦ cc
    | failed p _ s ↦ s
  ]

  -- A creation that succeeds records the device under the VM's id, and no other VM's device
  -- changes.
  pub create_tap_device_ok :
      (vm_id : Text) (m : Manager) (w : W) (t : TapDevice)
      → IsValid m
      → (create_tap_device h vm_id m w).0 ≡ ok t
      → (k : Text)
      → lookup k (create_tap_device h vm_id m w).1.tap_devices
        ≡ (if text_eq vm_id k then some t else lookup k m.tap_devices)
  create_tap_device_ok vm_id m w t v f k = elim (create_tap_device_cases vm_id m w v) [
    | existing t' e p q ↦ let s : t' ≡ t = cc in rw (q) (ground (arith, text_eq_iff vm_id k, s, e))
    | added x a c e p q ↦
        let s : new_tap vm_id (address m.ip_allocator x ++ mask) m ≡ t = cc in
        rw (q, s) (lookup-insert vm_id k t m.tap_devices)
    | failed p e s ↦ cc
  ]

  -- So a second call returns the same device and runs no command.
  pub create_tap_device_again :
      (vm_id : Text) (m : Manager) (w w' : W) (t : TapDevice)
      → IsValid m
      → (create_tap_device h vm_id m w).0 ≡ ok t
      → let m' = (create_tap_device h vm_id m w).1 in
        create_tap_device h vm_id m' w' ≡ (ok t, m', w')
  create_tap_device_again vm_id m w w' t v f =
      create_existing vm_id (create_tap_device h vm_id m w).1 w' t recorded
    where
      recorded : lookup vm_id (create_tap_device h vm_id m w).1.tap_devices ≡ some t
      recorded = create_tap_device_ok vm_id m w t v f vm_id ∙ rw (text_eq_refl vm_id)
