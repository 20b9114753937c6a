-- ===== src/Network/Manager/Release.antt =====
-- What DeleteTAPDevice gives back (services/core/pkg/network/network.go).
use aetherium.Base.{
  ℕ, ◌≡◌, sym, ap, ◌∙◌, ◌≢◌, inl, inr, true, false, none, some, ◌++◌, arith, if◌then◌else◌,
  Option-cases, ok, Text, text_eq, text_eq_iff, text_eq_refl, lookup, delete, lookup-insert,
  lookup-delete, lookup-insert_self,
}
use aetherium.Network.Address.{ip_string, ip_string_pos, mask, strip_mask, strip_mask-append}
use aetherium.Network.Allocator.{IpAllocator, is_allocated}
use aetherium.Network.Allocator.Contract.{
  Claims, address, release_ip-address, release_ip-InRange, release_ip-subnet,
}
use aetherium.Network.Allocator.Scan.{InRange}
use aetherium.Network.Host.{Host}
use aetherium.Network.Manager.{TapDevice, Manager}
use aetherium.Network.Manager.Leases.{Holds, Holds-mono, IsValid, installed}
use aetherium.Network.Manager.Lifecycle.{existing, added, failed, create_tap_device_cases}
use aetherium.Network.Manager.Tap.{new_tap, release, create_tap_device, delete_tap_device}

-- The manager once the device `t` of a VM is gone.
pub deleted : Text → TapDevice → Manager → Manager
unfolding release
deleted vm_id t m =
    let m1 = release t.ip_address m in record m1 { tap_devices = delete vm_id m1.tap_devices }

deleted-allocated :
    (vm_id : Text) (t : TapDevice) (m : Manager) (x : ℕ) (s : Text)
    → Holds m.ip_allocator t x
    → is_allocated (deleted vm_id t m).ip_allocator s
      ≡ (if text_eq (address m.ip_allocator x) s then false else is_allocated m.ip_allocator s)
unfolding deleted
deleted-allocated vm_id t m x s held =
    rw held.named (release_ip-address m.ip_allocator m.ip_allocator.subnet x s)

deleted-lookup :
    (vm_id : Text) (t : TapDevice) (m : Manager) (k : Text)
    → lookup k (deleted vm_id t m).tap_devices
      ≡ (if text_eq vm_id k then none else lookup k m.tap_devices)
unfolding deleted
deleted-lookup vm_id t m k = lookup-delete vm_id k m.tap_devices

deleted-subnet :
    (vm_id : Text) (t : TapDevice) (m : Manager)
    → (deleted vm_id t m).ip_allocator.subnet ≡ m.ip_allocator.subnet
unfolding deleted
deleted-subnet vm_id t m = release_ip-subnet t.ip_address m.ip_allocator

deleted-InRange :
    (vm_id : Text) (t : TapDevice) (m : Manager)
    → IsValid m
    → InRange (deleted vm_id t m).ip_allocator
unfolding deleted
deleted-InRange vm_id t m v = release_ip-InRange t.ip_address m.ip_allocator v.in_range

module _ (vm_id : Text) (t : TapDevice) (m : Manager) (v : IsValid m)
    (e : lookup vm_id m.tap_devices ≡ some t) where
  -- A device that is left was there before, under another id.
  kept :
      (k : Text) (u : TapDevice)
      → lookup k (deleted vm_id t m).tap_devices ≡ some u
      → (lookup k m.tap_devices ≡ some u) × (vm_id ≢ k)
  kept k u f = (
    ground (arith, deleted-lookup vm_id t m k),
    λ q. ground (arith, deleted-lookup vm_id t m k, text_eq_iff vm_id k),
  )

  deleted-Holds :
      (k : Text) (u : TapDevice)
      → lookup k (deleted vm_id t m).tap_devices ≡ some u
      → (y : ℕ) × Holds (deleted vm_id t m).ip_allocator u y
  deleted-Holds k u f =
      let (there, other) = kept k u f in
      let (x, mine) = v.holds vm_id t e in
      let (y, held) = v.holds k u there in
      let apart : address m.ip_allocator x ≢ address m.ip_allocator y = λ q.
        other
          (v.distinct vm_id k t u e there (mine.named ∙ ap (λ s. s ++ mask) q ∙ sym held.named)) in
      let still : is_allocated (deleted vm_id t m).ip_allocator (address m.ip_allocator y) ≡ true =
        ground (
          arith,
          deleted-allocated vm_id t m x (address m.ip_allocator y) mine,
          text_eq_iff (address m.ip_allocator x) (address m.ip_allocator y),
          apart,
          held.taken,
        ) in
      (
        y,
        Holds-mono m.ip_allocator (deleted vm_id t m).ip_allocator u y (deleted-subnet vm_id t m)
            still held,
      )

  pub deleted-IsValid : IsValid (deleted vm_id t m)
  deleted-IsValid = record {
    in_range = deleted-InRange vm_id t m v;
    holds = deleted-Holds;
    distinct = λ k k' u u' f f'. v.distinct k k' u u' (kept k u f).0 (kept k' u' f').0;
  }

module _ {W : Type 0} (h : Host W) where
  pub delete-absent :
      (vm_id : Text) (m : Manager) (w : W)
      → lookup vm_id m.tap_devices ≡ none
      → delete_tap_device h vm_id m w ≡ (m, w)
  unfolding delete_tap_device
  delete-absent vm_id m w e = rw (e, delete_tap_device)

  pub delete-present :
      (vm_id : Text) (m : Manager) (w : W) (t : TapDevice)
      → lookup vm_id m.tap_devices ≡ some t
      → (delete_tap_device h vm_id m w).0 ≡ deleted vm_id t m
  unfolding delete_tap_device deleted
  delete-present vm_id m w t e = rw (e, delete_tap_device)

  -- Deleting a VM's device keeps the manager valid, whether it has one or not.
  pub delete_tap_device-IsValid :
      (vm_id : Text) (m : Manager) (w : W) → IsValid m → IsValid (delete_tap_device h vm_id m w).0
  delete_tap_device-IsValid vm_id m w v = elim (Option-cases (lookup vm_id m.tap_devices)) [
    | inl e ↦ rw (delete-absent vm_id m w e) v
    | inr (t, e) ↦ rw (delete-present vm_id m w t e) (deleted-IsValid vm_id t m v e)
  ]

  pub delete_tap_device_frees :
      (vm_id : Text) (m : Manager) (w : W) (t : TapDevice)
      → IsValid m
      → lookup vm_id m.tap_devices ≡ some t
      → let m' = (delete_tap_device h vm_id m w).0 in
        ((k : Text)
          → lookup k m'.tap_devices ≡ (if text_eq vm_id k then none else lookup k m.tap_devices))
        × ((s : Text)
            → is_allocated m'.ip_allocator s ≡ (
                if text_eq (strip_mask t.ip_address) s
                then false
                else is_allocated m.ip_allocator s))
  delete_tap_device_frees vm_id m w t v e =
      let (x, held) = v.holds vm_id t e in
      rw (delete-present vm_id m w t e) (
        deleted-lookup vm_id t m,
        λ s. rw (stripped x held.named) (deleted-allocated vm_id t m x s held),
      )
    where
      stripped :
          (x : ℕ)
          → t.ip_address ≡ address m.ip_allocator x ++ mask
          → strip_mask t.ip_address ≡ address m.ip_allocator x
      stripped x q =
          ap strip_mask q
          ∙ strip_mask-append (address m.ip_allocator x) (ip_string_pos m.ip_allocator.subnet x)

  claimed-Holds :
      (m : Manager) (a : IpAllocator) (vm_id : Text) (x : ℕ)
      → Claims m.ip_allocator a x
      → Holds a (new_tap vm_id (address m.ip_allocator x ++ mask) m) x
  unfolding new_tap
  claimed-Holds m a vm_id x c =
      let q : address a x ≡ address m.ip_allocator x = ap (λ n. ip_string n x) c.same_subnet in
      record {
        named = rw q;
        taken =
            rw q (
              c.now_taken (address m.ip_allocator x)
              ∙ rw (text_eq_refl (address m.ip_allocator x)));
      }

  -- The leases after a device was installed and deleted again.
  restored :
      (m : Manager) (a : IpAllocator) (vm_id : Text) (x : ℕ)
      → lookup vm_id m.tap_devices ≡ none
      → Claims m.ip_allocator a x
      → let t = new_tap vm_id (address m.ip_allocator x ++ mask) m in
        let m' = deleted vm_id t (installed m a vm_id t) in
        ((k : Text) → lookup k m'.tap_devices ≡ lookup k m.tap_devices)
        × ((s : Text) → is_allocated m'.ip_allocator s ≡ is_allocated m.ip_allocator s)
  restored m a vm_id x e c =
      let t = new_tap vm_id (address m.ip_allocator x ++ mask) m in
      let m1 = installed m a vm_id t in
      let q : address a x ≡ address m.ip_allocator x = ap (λ n. ip_string n x) c.same_subnet in
      (
        λ k. ground (
          arith,
          deleted-lookup vm_id t m1 k,
          lookup-insert vm_id k t m.tap_devices,
          text_eq_iff vm_id k,
          e,
        ),
        λ s. ground (
          arith,
          deleted-allocated vm_id t m1 x s (claimed-Holds m a vm_id x c),
          c.now_taken s,
          c.was_free,
          text_eq_iff (address a x) s,
          q,
        ),
      )

  -- Creating a VM's first device and deleting it gives back the devices and the addresses of
  -- before: nothing leaks.
  pub delete_tap_device-create_tap_device :
      (vm_id : Text) (m : Manager) (w w' : W) (t : TapDevice)
      → IsValid m
      → lookup vm_id m.tap_devices ≡ none
      → (create_tap_device h vm_id m w).0 ≡ ok t
      → let m' = (delete_tap_device h vm_id (create_tap_device h vm_id m w).1 w').0 in
        ((k : Text) → lookup k m'.tap_devices ≡ lookup k m.tap_devices)
        × ((s : Text) → is_allocated m'.ip_allocator s ≡ is_allocated m.ip_allocator s)
  delete_tap_device-create_tap_device vm_id m w w' t v e f =
      elim (create_tap_device_cases h vm_id m w v) [
        | existing u g p q ↦ cc
        | added x a c g p q ↦
            let u = new_tap vm_id (address m.ip_allocator x ++ mask) m in
            rw
              (
                q,
                delete-present vm_id (installed m a vm_id u) w' u
                    (lookup-insert_self vm_id u m.tap_devices),
              )
              (restored m a vm_id x e c)
        | failed p g s ↦ cc
      ]
