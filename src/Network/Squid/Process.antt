-- ===== src/Network/Squid/Process.antt =====
-- The process handle and the process id of SquidManager agree (services/core/pkg/network/squid.go).
use aetherium.Base.{
  Bool, true, false, Option, text, [], ◌∷◌, ℕ, ◌<◌, ◌≡◌, refl, ◌⊎◌, ◌≢◌, none, some, List, arith,
  ◌==◌, if◌then◌else◌, ok, Text, insert,
}
use aetherium.Network.Config.{ProxyConfig}
use aetherium.Network.Host.{Host, VmWhitelistData}
use aetherium.Network.Squid.{
  SquidManager, new_squid_manager, initialize_cache_dir, start, stop, update_global_whitelist,
  update_vm_whitelist,
}

-- A process id other than 0 is that of the process, and with 0 there is no process.
unfoldable pub IsConsistent : SquidManager → Type 0
IsConsistent s = s.process ≡ (if s.pid == 0 then none else some s.pid)

-- Process ids are positive, as the operating system documents.
abbrev pub PositivePids : {W : Type 0} → Host W → Type 0
PositivePids {W} h = (args : List Text) (w : W) (p : ℕ) → (h.spawn args w).0 ≡ some p → 0 < p

module _ {W : Type 0} (h : Host W) where
  pub new_squid_manager-IsConsistent :
      (c : ProxyConfig) (bridge_ip subnet_cidr : Text) (w : W) (s : SquidManager)
      → (new_squid_manager h c bridge_ip subnet_cidr w).0 ≡ ok s
      → IsConsistent s × (s.pid ≡ 0)
  unfolding new_squid_manager IsConsistent
  new_squid_manager-IsConsistent c bridge_ip subnet_cidr w s e = ground arith

  -- Where process ids are positive, starting keeps the process id and the process in agreement, on
  -- every branch.
  pub start-IsConsistent :
      (s : SquidManager) (w : W) → PositivePids h → IsConsistent s → IsConsistent (start h s w).1
  unfolding start IsConsistent
  start-IsConsistent s w pos c = grind (arith, pos)

  -- Start succeeds only from rest, and then a process runs; if it fails, the process id is as
  -- before or 0.
  pub start_outcome :
      (s : SquidManager) (w : W)
      → PositivePids h
      → (((start h s w).0 ≡ none) × (s.pid ≡ 0) × (0 < (start h s w).1.pid))
        ⊎ (((start h s w).0 ≢ none) × ((start h s w).1.pid ≡ s.pid))
  unfolding start
  start_outcome s w pos = grind (arith, pos)

  -- What Start runs when no Squid is recorded and the cache directory is ready.
  abbrev pub launch : SquidManager → W → Option ℕ × W
  launch s w =
      h.spawn (text "squid" ∷ text "-f" ∷ s.config_path ∷ text "-N" ∷ [])
        (initialize_cache_dir h s w).1

  -- Where a process that was killed does not run, a Start that launches a process either succeeds,
  -- records that process, and a signal reaches it; or it reports an error, records none, and the process
  -- does not run.
  pub start-launch :
      (s : SquidManager) (w : W) (p : ℕ)
      → (runs : ℕ → W → Bool) → ((k : ℕ) (v : W) → runs k (h.kill k v) ≡ false)
      → s.pid ≡ 0
      → (initialize_cache_dir h s w).0 ≡ true
      → (launch s w).0 ≡ some p
      → let r = start h s w in
        ((r.0 ≡ none) × (r.1.pid ≡ p) × (r.1.process ≡ some p) × (h.alive p r.2 ≡ true))
        ⊎ ((r.0 ≢ none) × (r.1.pid ≡ 0) × (r.1.process ≡ none) × (runs p r.2 ≡ false))
  unfolding start
  start-launch s w p runs law idle ready launched = ground (arith, law p (launch s w).1)

  pub stop_outcome : (s : SquidManager) (w : W) → ((stop h s w).0 ≡ none) × ((stop h s w).1.pid ≡ 0)
  unfolding stop
  stop_outcome s w = ground arith

  pub stop-IsConsistent : (s : SquidManager) (w : W) → IsConsistent s → IsConsistent (stop h s w).1
  unfolding stop IsConsistent
  stop-IsConsistent s w c = ground arith

  -- Starting and stopping leave the whitelists and the settings alone.
  pub start-whitelists :
      (s : SquidManager) (w : W)
      → ((start h s w).1.global_domains ≡ s.global_domains)
        × ((start h s w).1.vm_whitelists ≡ s.vm_whitelists)
  unfolding start
  start-whitelists s w = ground arith

  -- The updates of the whitelists leave the process alone.
  pub update_global_whitelist-process :
      (domains : List Text) (s : SquidManager) (w : W)
      → let s' = (update_global_whitelist h domains s w).1 in
        (s'.pid ≡ s.pid) × (s'.process ≡ s.process) × (s'.global_domains ≡ domains)
  unfolding update_global_whitelist
  update_global_whitelist-process domains s w = (refl, refl, refl)

  pub update_vm_whitelist-process :
      (vm_id : Text) (entry : VmWhitelistData) (s : SquidManager) (w : W)
      → let s' = (update_vm_whitelist h vm_id entry s w).1 in
        (s'.pid ≡ s.pid) × (s'.process ≡ s.process)
  unfolding update_vm_whitelist
  update_vm_whitelist-process vm_id entry s w = (refl, refl)

  pub stop-whitelists :
      (s : SquidManager) (w : W) → (stop h s w).1.global_domains ≡ s.global_domains
  unfolding stop
  stop-whitelists s w = ground arith

  -- The new entry of a VM is in the manager whether or not the file could be written.
  pub update_vm_whitelist-lists :
      (vm_id : Text) (entry : VmWhitelistData) (s : SquidManager) (w : W)
      → let s' = (update_vm_whitelist h vm_id entry s w).1 in
        (s'.global_domains ≡ s.global_domains)
        × (s'.vm_whitelists ≡ insert vm_id entry s.vm_whitelists)
  unfolding update_vm_whitelist
  update_vm_whitelist-lists vm_id entry s w = (refl, refl)
