-- ===== src/Network/Proxy/Whitelists.antt =====
-- What an update of the whitelists reaches (services/core/pkg/network/proxy.go).
use aetherium.Base.{◌≡◌, false, Option, none, some, List, arith, Text}
use aetherium.Network.Host.{Host}
use aetherium.Network.Proxy.{ProxyManager, start, update_whitelist, update_vm_whitelist}
use aetherium.Network.Squid
use aetherium.Network.Squid.{SquidManager}
use aetherium.Network.Squid.Process.{start-whitelists, stop-whitelists}

-- The global list that Squid's configuration is made with.
abbrev pub squid_domains : ProxyManager → Option (List Text)
squid_domains p = elim p.squid_manager [ none ↦ none | some s ↦ some s.global_domains ]

module _ {W : Type 0} (h : Host W) where
  -- An update of the global whitelist of a proxy that is not running reports success, and is lost:
  -- once the proxy is started, Squid still has the list of before.
  pub start-update_whitelist_lost :
      (domains : List Text) (p : ProxyManager) (s : SquidManager) (w w' : W)
      → p.running ≡ false
      → p.squid_manager ≡ some s
      → let r = update_whitelist h domains p w in
        (r.0 ≡ none)
        × (r.1.config.default_domains ≡ domains)
        × (squid_domains (start h r.1 w').1 ≡ some s.global_domains)
  unfolding update_whitelist start
  start-update_whitelist_lost domains p s w w' off sq =
      grind (arith, start-whitelists h s w', stop-whitelists h)

  -- An update for a VM of a proxy that is not running reports success and does nothing.
  pub update_vm_whitelist_idle :
      (vm_id vm_name vm_ip : Text) (domains : List Text) (p : ProxyManager) (w : W)
      → p.running ≡ false
      → update_vm_whitelist h vm_id vm_name vm_ip domains p w ≡ (none, p, w)
  unfolding update_vm_whitelist
  update_vm_whitelist_idle vm_id vm_name vm_ip domains p w off = ground arith
