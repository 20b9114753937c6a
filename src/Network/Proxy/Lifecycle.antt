-- ===== src/Network/Proxy/Lifecycle.antt =====
-- A proxy that runs has its Squid running (services/core/pkg/network/proxy.go).
use aetherium.Base.{ℕ, ◌<◌, ◌≡◌, ◌≢◌, ◌⊎◌, true, false, none, some, List, arith, ok, Text}
use aetherium.Network.Config.{ProxyConfig}
use aetherium.Network.Host.{Host}
use aetherium.Network.Proxy.{
  ProxyManager, new_proxy_manager, start, stop, update_whitelist, update_vm_whitelist,
}
use aetherium.Network.Squid.{SquidManager}
use aetherium.Network.Squid.Process.{
  PositivePids, start_outcome, stop_outcome, update_global_whitelist-process,
  update_vm_whitelist-process,
}

-- The process id of the proxy's Squid, 0 if it has none.
abbrev pub pid_of : ProxyManager → ℕ
pid_of p = elim p.squid_manager [ none ↦ 0 | some s ↦ s.pid ]

-- A running proxy is enabled, and its Squid, if it has one, has a process.
pub record IsValid (p : ProxyManager) : Type 0 where
  pub enabled : p.running ≡ true → p.config.enabled ≡ true
  pub live : (s : SquidManager) → p.squid_manager ≡ some s → p.running ≡ true → 0 < s.pid

module _ {W : Type 0} (h : Host W) where
  pub new_proxy_manager-IsValid :
      (c : ProxyConfig) (bridge_ip subnet_cidr : Text) (w : W) (p : ProxyManager)
      → (new_proxy_manager h c bridge_ip subnet_cidr w).0 ≡ ok p
      → IsValid p × (p.running ≡ false)
  unfolding new_proxy_manager
  new_proxy_manager-IsValid c bridge_ip subnet_cidr w p e = ground arith

  -- Starting keeps a proxy valid, whether it succeeds or fails: if it runs then it is enabled and its
  -- Squid, if it has one, has a process.
  pub start-IsValid :
      (p : ProxyManager) (w : W) → PositivePids h → IsValid p → IsValid (start h p w).1
  unfolding start
  start-IsValid p w pos v =
      grind (arith, start_outcome h, stop_outcome h, update_global_whitelist-process h)

  -- Stopping keeps a proxy valid, on every branch.
  pub stop-IsValid : (p : ProxyManager) (w : W) → IsValid p → IsValid (stop h p w).1
  unfolding stop
  stop-IsValid p w v =
      grind (arith, start_outcome h, stop_outcome h, update_global_whitelist-process h)

  pub update_whitelist-IsValid :
      (domains : List Text) (p : ProxyManager) (w : W)
      → IsValid p
      → IsValid (update_whitelist h domains p w).1
  unfolding update_whitelist
  update_whitelist-IsValid domains p w v =
      grind (arith, start_outcome h, stop_outcome h, update_global_whitelist-process h)

  pub update_vm_whitelist-IsValid :
      (vm_id vm_name vm_ip : Text) (domains : List Text) (p : ProxyManager) (w : W)
      → IsValid p
      → IsValid (update_vm_whitelist h vm_id vm_name vm_ip domains p w).1
  unfolding update_vm_whitelist
  update_vm_whitelist-IsValid vm_id vm_name vm_ip domains p w v =
      grind (arith, update_vm_whitelist-process h)

  -- Start of an enabled proxy either leaves it running, or reports an error, leaves it not running,
  -- and records no process id that was not recorded before.
  pub start_outcomes :
      (p : ProxyManager) (w : W)
      → PositivePids h
      → p.config.enabled ≡ true
      → let r = start h p w in
        ((r.0 ≡ none) × (r.1.running ≡ true))
        ⊎ ((r.0 ≢ none) × (r.1.running ≡ false) × ((pid_of r.1 ≡ 0) ⊎ (pid_of r.1 ≡ pid_of p)))
  unfolding start
  start_outcomes p w pos on = grind (arith, start_outcome h, stop_outcome h)

  -- Stop of a running proxy reports no error, and leaves it not running and Squid with no process.
  pub stop_outcomes :
      (p : ProxyManager) (w : W)
      → IsValid p
      → p.running ≡ true
      → let r = stop h p w in (r.0 ≡ none) × (r.1.running ≡ false) × (pid_of r.1 ≡ 0)
  unfolding stop
  stop_outcomes p w v on = grind (arith, stop_outcome h)
