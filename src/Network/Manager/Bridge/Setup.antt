-- ===== src/Network/Manager/Bridge/Setup.antt =====
-- What SetupBridge leaves behind (services/core/pkg/network/network.go).
use aetherium.Base.{
  ◌≡◌, ◌≢◌, ◌⊎◌, inl, inr, Bool, true, false, Option, none, some, List, arith, Bool-cases, Text,
  lookup,
}
use aetherium.Network.Address.{strip_mask}
use aetherium.Network.Host.{Host}
use aetherium.Network.Manager.{Manager, NetworkError, TapDevice}
use aetherium.Network.Manager.Bridge.{start_proxy, create_bridge, setup_bridge}
use aetherium.Network.Manager.Egress.{register_vm_with_proxy}
use aetherium.Network.Proxy.{ProxyManager}
use aetherium.Network.Proxy.Lifecycle.{start_outcomes}
use aetherium.Network.Proxy.Whitelists.{update_vm_whitelist_idle}
use aetherium.Network.Squid.Process.{PositivePids}

-- The setup is marked as done exactly when it succeeds, and touches neither the devices, the
-- allocator nor the settings.
abbrev pub Marks : {W : Type 0} → Manager → Option NetworkError × Manager × W → Type 0
Marks m r =
    (((r.0 ≡ none) × (r.1.bridge_setup ≡ true))
      ⊎ ((r.0 ≢ none) × (r.1.bridge_setup ≡ m.bridge_setup)))
    × (r.1.tap_devices ≡ m.tap_devices)
    × (r.1.ip_allocator ≡ m.ip_allocator)
    × (r.1.config ≡ m.config)

-- There is a proxy manager, and it runs.
abbrev pub proxy_runs : Manager → Bool
proxy_runs m = elim m.proxy_manager [ none ↦ false | some p ↦ p.running ]

module _ {W : Type 0} (h : Host W) where
  start_proxy-Marks : (m : Manager) (w : W) → Marks m (start_proxy h m w)
  unfolding start_proxy
  start_proxy-Marks m w = ground arith

  create_bridge-Marks : (m : Manager) (w : W) → Marks m (create_bridge h m w)
  unfolding create_bridge
  create_bridge-Marks m w = grind (arith, start_proxy-Marks)

  -- On a first call, SetupBridge marks the bridge as set up exactly when it succeeds; the devices,
  -- the allocator and the settings are as before on every branch.
  pub setup_bridge-Marks :
      (m : Manager) (w : W) → m.bridge_setup ≡ false → Marks m (setup_bridge h m w)
  unfolding setup_bridge
  setup_bridge-Marks m w off = ground (arith, create_bridge-Marks m w)

  setup_done : (m : Manager) (w : W) → m.bridge_setup ≡ true → setup_bridge h m w ≡ (none, m, w)
  unfolding setup_bridge
  setup_done m w on = rw (on, setup_bridge)

  -- After a success a second call does nothing.
  pub setup_bridge_again :
      (m : Manager) (w w' : W)
      → (setup_bridge h m w).0 ≡ none
      → setup_bridge h (setup_bridge h m w).1 w' ≡ (none, (setup_bridge h m w).1, w')
  setup_bridge_again m w w' e = setup_done (setup_bridge h m w).1 w' marked
    where
      marked : (setup_bridge h m w).1.bridge_setup ≡ true
      marked = elim (Bool-cases m.bridge_setup) [
        | inl on ↦ rw (setup_done m w on) on
        | inr off ↦ ground (arith, setup_bridge-Marks m w off)
      ]

  start_proxy_runs :
      (m : Manager) (p : ProxyManager) (w : W)
      → PositivePids h
      → m.proxy_manager ≡ some p
      → p.config.enabled ≡ true
      → (start_proxy h m w).0 ≡ none
      → proxy_runs (start_proxy h m w).1 ≡ true
  unfolding start_proxy
  start_proxy_runs m p w pos e on done = ground (arith, start_outcomes h p w pos)

  create_bridge_runs :
      (m : Manager) (p : ProxyManager) (w : W)
      → PositivePids h
      → m.proxy_manager ≡ some p
      → p.config.enabled ≡ true
      → (create_bridge h m w).0 ≡ none
      → proxy_runs (create_bridge h m w).1 ≡ true
  unfolding create_bridge
  create_bridge_runs m p w pos e on done = grind (arith, λ (v : W). start_proxy_runs m p v pos e on)

  -- Where the bridge is not there yet, a success of SetupBridge means that an enabled proxy runs.
  pub setup_bridge_starts_proxy :
      (m : Manager) (p : ProxyManager) (w : W)
      → PositivePids h
      → m.bridge_setup ≡ false
      → h.interface_up m.config.bridge_name w ≡ none
      → m.proxy_manager ≡ some p
      → p.config.enabled ≡ true
      → (setup_bridge h m w).0 ≡ none
      → proxy_runs (setup_bridge h m w).1 ≡ true
  unfolding setup_bridge
  setup_bridge_starts_proxy m p w pos off absent e on done =
      ground (arith, create_bridge_runs m p w pos e on)

  -- Where the bridge is up already, SetupBridge succeeds and does not start the proxy: registering
  -- a VM that has a device then reports success, and changes neither the manager nor the machine.
  pub register_vm_with_proxy-setup_bridge_existing :
      (vm_id vm_name : Text) (domains : List Text) (m : Manager) (p : ProxyManager)
      (tap : TapDevice) (w : W)
      → m.bridge_setup ≡ false
      → h.interface_up m.config.bridge_name w ≡ some true
      → m.proxy_manager ≡ some p
      → p.running ≡ false
      → lookup vm_id m.tap_devices ≡ some tap
      → let r = setup_bridge h m w in
        (r.0 ≡ none)
        × (proxy_runs r.1 ≡ false)
        × (register_vm_with_proxy h vm_id vm_name domains r.1 r.2 ≡ (none, r.1, r.2))
        × (r.2 ≡ w)
  unfolding setup_bridge register_vm_with_proxy
  register_vm_with_proxy-setup_bridge_existing vm_id vm_name domains m p tap w off up e idle there =
      ground (
        arith,
        update_vm_whitelist_idle h vm_id vm_name (strip_mask tap.ip_address) domains p w idle,
      )
