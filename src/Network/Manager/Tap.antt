-- ===== src/Network/Manager/Tap.antt =====
-- CreateTAPDevice and DeleteTAPDevice of services/core/pkg/network/network.go.
use aetherium.Base.{
  not, none, some, [], ◌∷◌, ◌++◌, ltb, if◌then◌else◌, length, take, Result, ok, err, Text, text,
  lookup, insert, delete,
}
use aetherium.Network.Allocator.{IpAllocator, AllocError, allocate_ip, release_ip}
use aetherium.Network.Host.{Host}
use aetherium.Network.Mac.{generate_mac}
use aetherium.Network.Manager.{
  TapDevice, Manager, NetworkError, ip_not_allocated, tap_not_created, tap_not_attached, tap_not_up,
}

-- The prefix and at most eight bytes of the id, cut to the 15 bytes of an interface name.
unfoldable pub tap_name : Text → Text → Text
tap_name prefix vm_id =
    let suffix = if ltb 8 (length vm_id) then take 8 vm_id else vm_id in
    let name = prefix ++ suffix in if ltb 15 (length name) then take 15 name else name

unfoldable pub release : Text → Manager → Manager
release ip m = record m { ip_allocator = release_ip ip m.ip_allocator }

unfoldable pub new_tap : Text → Text → Manager → TapDevice
unfolding tap_name
new_tap vm_id ip m = record {
  name = tap_name m.config.tap_prefix vm_id;
  ip_address = ip;
  gateway = m.config.bridge_ip;
  mac_addr = generate_mac vm_id;
}

module _ {W : Type 0} (h : Host W) where
  link_delete : Text → W → W
  link_delete name w = (h.run (text "ip" ∷ text "link" ∷ text "delete" ∷ name ∷ []) w).1

  -- The steps behind the allocation: each failure takes back what was done, and the address.
  unfoldable pub set_up_tap :
      Text → Text → Manager → W → Result NetworkError TapDevice × Manager × W
  unfolding link_delete new_tap release
  set_up_tap vm_id ip m w =
      let name = tap_name m.config.tap_prefix vm_id in
      let (added, w1) =
        h.run (text "ip" ∷ text "tuntap" ∷ text "add" ∷ name ∷ text "mode" ∷ text "tap" ∷ []) w in
      if not added
      then (err tap_not_created, release ip m, w1)
      else let (attached, w2) =
          h.run
            (text "ip"
              ∷ text "link"
              ∷ text "set"
              ∷ name
              ∷ text "master"
              ∷ m.config.bridge_name
              ∷ [])
            w1 in
        if not attached
        then (err tap_not_attached, release ip m, link_delete name w2)
        else let (up, w3) =
            h.run (text "ip" ∷ text "link" ∷ text "set" ∷ name ∷ text "up" ∷ []) w2 in
          if not up
          then (err tap_not_up, release ip m, link_delete name w3)
          else let tap = new_tap vm_id ip m in
            (ok tap, record m { tap_devices = insert vm_id tap m.tap_devices }, w3)

  unfoldable pub use_allocation :
      Text
      → Manager
      → Result AllocError Text × IpAllocator
      → W
      → Result NetworkError TapDevice × Manager × W
  use_allocation vm_id m (err e, a) w = (err (ip_not_allocated e), record m { ip_allocator = a }, w)
  use_allocation vm_id m (ok ip, a) w = set_up_tap vm_id ip (record m { ip_allocator = a }) w

  unfoldable pub create_tap_device :
      Text → Manager → W → Result NetworkError TapDevice × Manager × W
  unfolding use_allocation
  create_tap_device vm_id m w = elim (lookup vm_id m.tap_devices) [
    | some tap ↦ (ok tap, m, w)
    | none ↦ use_allocation vm_id m (allocate_ip m.ip_allocator) w
  ]

  -- It reports no error on any path: a failure to delete the link is ignored.
  unfoldable pub delete_tap_device : Text → Manager → W → Manager × W
  unfolding link_delete release
  delete_tap_device vm_id m w = elim (lookup vm_id m.tap_devices) [
    | none ↦ (m, w)
    | some tap ↦
        let w1 = link_delete tap.name w in
        let m1 = release tap.ip_address m in
        (record m1 { tap_devices = delete vm_id m1.tap_devices }, w1)
  ]
