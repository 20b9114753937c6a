-- ===== src/Network/Manager/Egress.antt =====
-- The proxy methods of Manager in services/core/pkg/network/network.go, which pass a call on to the
-- proxy manager if there is one.
use aetherium.Base.{Option, none, some, List, Text, lookup}
use aetherium.Network.Address.{strip_mask}
use aetherium.Network.Host.{Host}
use aetherium.Network.Manager.{Manager, NetworkError, vm_not_found, proxy_failed, squid_failed}
use aetherium.Network.Proxy
use aetherium.Network.Proxy.{ProxyManager, ProxyError, Outcome}
use aetherium.Network.Squid

module _ {W : Type 0} (h : Host W) where
  -- The manager with the outcome of a call of its proxy.
  with_proxy : Manager → Outcome W → Option NetworkError × Manager × W
  with_proxy m (failure, p, w) = (
    elim failure [ some e ↦ some (proxy_failed e) | none ↦ none ],
    record m { proxy_manager = some p },
    w,
  )

  unfoldable pub register_vm_with_proxy :
      (vm_id vm_name : Text) (domains : List Text) → Manager → W → Option NetworkError × Manager × W
  unfolding with_proxy
  register_vm_with_proxy vm_id vm_name domains m w = elim (lookup vm_id m.tap_devices) [
    | none ↦ (some vm_not_found, m, w)
    | some tap ↦ elim m.proxy_manager [
      | none ↦ (none, m, w)
      | some p ↦
          with_proxy m
            (Proxy.update_vm_whitelist h vm_id vm_name (strip_mask tap.ip_address) domains p w)
    ]
  ]

  unfoldable pub unregister_vm_from_proxy : Text → Manager → W → Option NetworkError × Manager × W
  unregister_vm_from_proxy vm_id m w = elim m.proxy_manager [
    | none ↦ (none, m, w)
    | some p ↦ elim p.squid_manager [
      | none ↦ (none, m, w)
      | some s ↦
          let (failure, s', w1) = Squid.remove_vm_whitelist h vm_id s w in
          let p' = record p { squid_manager = some s' } in
          let m' = record m { proxy_manager = some p' } in
          elim failure [
            | some e ↦ (some (squid_failed e), m', w1)
            | none ↦
                let (unloaded, w2) = Proxy.reload h p' w1 in
                (elim unloaded [ some e ↦ some (proxy_failed e) | none ↦ none ], m', w2)
          ]
    ]
  ]

  unfoldable pub update_global_whitelist :
      List Text → Manager → W → Option NetworkError × Manager × W
  unfolding with_proxy
  update_global_whitelist domains m w = elim m.proxy_manager [
    | none ↦ (none, m, w)
    | some p ↦ with_proxy m (Proxy.update_whitelist h domains p w)
  ]

  unfoldable pub get_proxy_health : Manager → W → Option NetworkError
  get_proxy_health m w = elim m.proxy_manager [
    | none ↦ none
    | some p ↦ elim (Proxy.health h p w) [ some e ↦ some (proxy_failed e) | none ↦ none ]
  ]

  unfoldable pub shutdown : Manager → W → Option NetworkError × Manager × W
  unfolding with_proxy
  shutdown m w = elim m.proxy_manager [
    | none ↦ (none, m, w)
    | some p ↦ with_proxy m (Proxy.stop h p w)
  ]
