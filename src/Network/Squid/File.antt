-- ===== src/Network/Squid/File.antt =====
-- The configuration file that Squid reads follows the manager's whitelists
-- (services/core/pkg/network/squid.go).
use aetherium.Base.{◌≡◌, true, Option, none, some, List, [], ◌∷◌, arith, Text, text, insert}
use aetherium.Network.Host.{Host, VmWhitelistData, SquidData}
use aetherium.Network.Squid.{
  SquidManager, template_data, generate_config, update_global_whitelist, update_vm_whitelist,
  reload,
}

-- The machine seen through the configuration files on it: executing the template writes the file,
-- and Squid's reconfiguration reads it only.
pub record ConfigFiles {W : Type 0} (h : Host W) : Type 0 where
  pub config_at : Text → W → Option SquidData
  pub executed :
      (path : Text) (d : SquidData) (w : W)
      → (h.execute_template path d w).0 ≡ true
      → config_at path (h.execute_template path d w).1 ≡ some d
  pub reconfigured :
      (path f : Text) (w : W)
      → config_at path
          (h.run (text "squid" ∷ text "-f" ∷ f ∷ text "-k" ∷ text "reconfigure" ∷ []) w).1
        ≡ config_at path w

module _ {W : Type 0} (h : Host W) (files : ConfigFiles h) where
  -- The file on the machine is what the template makes of the manager.
  abbrev pub OnDisk : SquidManager → W → Type 0
  OnDisk s w = files.config_at s.config_path w ≡ some (template_data h s)

  -- A configuration that is generated with no error is on the machine, at the manager's path and with
  -- the manager's values.
  pub generate_config-OnDisk :
      (s : SquidManager) (w : W)
      → (generate_config h s w).0 ≡ none
      → OnDisk s (generate_config h s w).1
  unfolding generate_config
  generate_config-OnDisk s w e = grind (arith, files.executed)

  pub update_vm_whitelist-OnDisk :
      (vm_id : Text) (entry : VmWhitelistData) (s : SquidManager) (w : W)
      → let r = update_vm_whitelist h vm_id entry s w in r.0 ≡ none → OnDisk r.1 r.2
  unfolding update_vm_whitelist
  update_vm_whitelist-OnDisk vm_id entry s w e = ground (
    arith,
    generate_config-OnDisk (record s { vm_whitelists = insert vm_id entry s.vm_whitelists }) w,
  )

  pub update_global_whitelist-OnDisk :
      (domains : List Text) (s : SquidManager) (w : W)
      → let r = update_global_whitelist h domains s w in r.0 ≡ none → OnDisk r.1 r.2
  unfolding update_global_whitelist
  update_global_whitelist-OnDisk domains s w e =
      ground (arith, generate_config-OnDisk (record s { global_domains = domains }) w)

  pub reload-OnDisk : (s : SquidManager) (w : W) → OnDisk s w → OnDisk s (reload h s w).1
  unfolding reload
  reload-OnDisk s w e = ground (arith, files.reconfigured s.config_path s.config_path w)
