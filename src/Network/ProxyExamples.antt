-- ===== src/Network/ProxyExamples.antt =====
-- Runs of the egress proxy on the machine of Network/Examples.antt.
use aetherium.Base.{
  Bool, not, false, ◌≡◌, ◌≢◌, ◌⊎◌, refl, true, false, none, some, [], ◌∷◌, arith, text, text_eq,
  lookup,
}
use aetherium.Network.Config.{ProxyConfig}
use aetherium.Network.Examples.{Machine, willing, fresh}
use aetherium.Network.Manager.{Manager, TapDevice, initial_manager}
use aetherium.Network.Manager.Bridge.{setup_bridge}
use aetherium.Network.Manager.Bridge.Setup.{
  proxy_runs, register_vm_with_proxy-setup_bridge_existing,
}
use aetherium.Network.Manager.Egress.{register_vm_with_proxy}
use aetherium.Network.Proxy
use aetherium.Network.Proxy.{ProxyManager, update_whitelist}
use aetherium.Network.Proxy.Lifecycle
use aetherium.Network.Proxy.Lifecycle.{
  pid_of, start-IsValid, stop-IsValid, start_outcomes, stop_outcomes,
}
use aetherium.Network.Proxy.Whitelists.{squid_domains, start-update_whitelist_lost}
use aetherium.Network.Squid
use aetherium.Network.Squid.{SquidManager, generate_config, initialize_cache_dir}
use aetherium.Network.Host.{Host, found, no_file}
use aetherium.Network.Squid.Process.{IsConsistent, PositivePids, start-launch}

willing-PositivePids : PositivePids willing
willing-PositivePids args w p e = ground (arith, e)

abbrev config : ProxyConfig
config = record {
  enabled = true;
  provider = text "squid";
  transparent = false;
  port = 3128;
  whitelist_mode = text "enforce";
  default_domains = text "go.dev" ∷ [];
  squid = record {
    config_path = text "/etc/squid/aetherium.conf";
    cache_dir = text "/var/spool/squid";
    cache_size_mb = 100;
    access_log = text "/var/log/squid/access.log";
    cache_log = text "/var/log/squid/cache.log";
  };
  redirect_http = false;
  redirect_https = false;
}

abbrev idle_squid : SquidManager
idle_squid = record {
  config = config;
  bridge_ip = text "172.16.0.1";
  subnet_cidr = text "172.16.0.0/24";
  process = none;
  pid = 0;
  global_domains = text "go.dev" ∷ [];
  vm_whitelists = [];
  config_path = text "/etc/squid/aetherium.conf";
}

abbrev idle : ProxyManager
idle = record {
  config = config;
  bridge_ip = text "172.16.0.1/24";
  subnet_cidr = text "172.16.0.0/24";
  squid_manager = some idle_squid;
  running = false;
  squid_pid = 0;
}

abbrev live_squid : SquidManager
live_squid = record idle_squid { process = some 7; pid = 7 }

abbrev live : ProxyManager
live = record idle { squid_manager = some live_squid; running = true; squid_pid = 7 }

idle-IsValid : Lifecycle.IsValid idle
idle-IsValid = record { enabled = λ e. refl; live = λ s e f. cc }

live-IsValid : Lifecycle.IsValid live
live-IsValid = record { enabled = λ e. refl; live = λ s e f. ground (arith, e) }

idle-IsConsistent : IsConsistent idle_squid
unfolding IsConsistent
idle-IsConsistent = refl

generated : (generate_config willing idle_squid none).0 ≡ none
unfolding generate_config
generated = refl

abbrev updated : Proxy.Outcome Machine
updated =
    Proxy.update_vm_whitelist willing (text "vm-1") (text "ci") (text "172.16.0.2")
      (text "a.io" ∷ []) live none

abbrev relisted : Proxy.Outcome Machine
relisted = update_whitelist willing (text "a.io" ∷ []) idle none

start-update_whitelist_lost_example :
    (relisted.0 ≡ none)
    × (relisted.1.config.default_domains ≡ (text "a.io" ∷ []))
    × (squid_domains (Proxy.start willing relisted.1 none).1 ≡ some (text "go.dev" ∷ []))
start-update_whitelist_lost_example =
    start-update_whitelist_lost willing (text "a.io" ∷ []) idle idle_squid none none refl refl

abbrev tap : TapDevice
tap = record {
  name = text "aether-vm-1";
  ip_address = text "172.16.0.2/24";
  gateway = text "172.16.0.1/24";
  mac_addr = text "52:54:00:00:00:01";
}

abbrev with_proxy : Manager
with_proxy = record fresh { proxy_manager = some idle; tap_devices = (text "vm-1", tap) ∷ [] }

not_set_up : with_proxy.bridge_setup ≡ false
unfolding initial_manager
not_set_up = refl

set_up : (setup_bridge willing with_proxy none).0 ≡ none
unfolding setup_bridge initial_manager
set_up = refl

has_tap : lookup (text "vm-1") with_proxy.tap_devices ≡ some tap
unfolding lookup text_eq
has_tap = refl

register_vm_with_proxy-setup_bridge_existing_example :
    ((setup_bridge willing with_proxy none).0 ≡ none)
    × (proxy_runs (setup_bridge willing with_proxy none).1 ≡ false)
    × (register_vm_with_proxy willing
          (text "vm-1")
          (text "ci")
          (text "a.io" ∷ [])
          (setup_bridge willing with_proxy none).1
          (setup_bridge willing with_proxy none).2
        ≡ (
          none,
          (setup_bridge willing with_proxy none).1,
          (setup_bridge willing with_proxy none).2,
        ))
    × ((setup_bridge willing with_proxy none).2 ≡ none)
register_vm_with_proxy-setup_bridge_existing_example =
    register_vm_with_proxy-setup_bridge_existing willing (text "vm-1") (text "ci")
      (text "a.io" ∷ []) with_proxy idle tap none not_set_up refl refl refl has_tap

-- A machine on which no signal reaches a process; its state says whether one was killed.
abbrev mute : Host Bool
mute = record {
  run = λ args w. (true, w);
  output = λ args w. (none, w);
  interface_up = λ name w. some true;
  spawn = λ args w. (some 7, w);
  alive = λ pid w. false;
  kill = λ pid w. true;
  exits = λ pid w. (true, w);
  on_path = λ name w. true;
  stat = λ path w. found;
  read_lines = λ path w. no_file;
  load_template = λ path w. true;
  create_file = λ path w. (true, w);
  execute_template = λ path d w. (true, w);
}

idle-ready : (initialize_cache_dir mute idle_squid false).0 ≡ true
unfolding initialize_cache_dir
idle-ready = refl

start-launch_example :
    let r = Squid.start mute idle_squid false in
    ((r.0 ≡ none) × (r.1.pid ≡ 7) × (r.1.process ≡ some 7) × (mute.alive 7 r.2 ≡ true))
    ⊎ ((r.0 ≢ none) × (r.1.pid ≡ 0) × (r.1.process ≡ none) × (not r.2 ≡ false))
unfolding initialize_cache_dir
start-launch_example =
    start-launch mute idle_squid false 7 (λ pid w. not w) (λ pid w. refl) refl idle-ready refl
