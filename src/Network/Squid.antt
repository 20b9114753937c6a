-- ===== src/Network/Squid.antt =====
-- SquidManager of services/core/pkg/network/squid.go: the Squid process, its configuration file and
-- the whitelists. Each method returns its error, the manager and the machine. The pauses and the
-- messages to the console are left out.
pub mod Process
pub mod File
use aetherium.Base.{
  ℕ, ◌+◌, Bool, true, false, not, Option, none, some, List, [], ◌∷◌, ◌++◌, ◌==◌, if◌then◌else◌,
  Result, ok, err, Text, text, Map, insert, delete,
}
use aetherium.Network.Config.{ProxyConfig}
use aetherium.Network.Host.{Host, Stat, found, missing, stat_failed, VmWhitelistData, SquidData}

pub record SquidManager : Type 0 where
  pub config : ProxyConfig
  pub bridge_ip : Text
  pub subnet_cidr : Text
  pub process : Option ℕ
  pub pid : ℕ
  pub global_domains : List Text
  pub vm_whitelists : Map VmWhitelistData
  pub config_path : Text

pub data SquidError : Type 0 where
  already_running : ℕ → SquidError
  cache_not_initialized not_started terminated not_responding not_running not_reloaded : SquidError
  template_not_loaded file_not_created template_not_executed : SquidError
  not_installed certificate_missing key_missing : SquidError
  config_not_generated config_not_regenerated : SquidError → SquidError

-- `strings.Split(cidr, "/")[0]`.
unfoldable pub extract_ip : Text → Text
extract_ip [] = []
extract_ip (c ∷ s) = if c == b'/' then [] else c ∷ extract_ip s

module _ {W : Type 0} (h : Host W) where
  -- checkSquidInstalled and checkCertsExist of proxy.go.
  pub check_squid_installed : W → Option SquidError
  check_squid_installed w = if h.on_path (text "squid") w then none else some not_installed

  check_key : W → Option SquidError
  check_key w = elim (h.stat (text "/etc/squid/certs/aetherium-ca-key.pem") w) [
    | missing ↦ some key_missing
    | _ ↦ none
  ]

  pub check_certs_exist : W → Option SquidError
  unfolding check_key
  check_certs_exist w = elim (h.stat (text "/etc/squid/certs/aetherium-ca.pem") w) [
    | missing ↦ some certificate_missing
    | _ ↦ check_key w
  ]

  pub template_data : SquidManager → SquidData
  template_data s = record {
    bridge_ip = s.bridge_ip;
    port = s.config.port;
    https_port = s.config.port + 1;
    subnet_cidr = s.subnet_cidr;
    global_domains = s.global_domains;
    vm_whitelists = s.vm_whitelists;
    cache_dir = s.config.squid.cache_dir;
    cache_size_mb = s.config.squid.cache_size_mb;
    access_log = s.config.squid.access_log;
    cache_log = s.config.squid.cache_log;
  }

  unfoldable pub generate_config : SquidManager → W → Option SquidError × W
  unfolding template_data
  generate_config s w =
      if not (h.load_template (text "templates/squid.conf.tmpl") w)
      then (some template_not_loaded, w)
      else let (created, w1) = h.create_file s.config_path w in
        if not created
        then (some file_not_created, w1)
        else let (executed, w2) = h.execute_template s.config_path (template_data s) w1 in
          (if executed then none else some template_not_executed, w2)

  -- The checks of NewSquidManager, in their order.
  unfoldable pub check_prerequisites : ProxyConfig → W → Option SquidError
  unfolding check_squid_installed check_certs_exist
  check_prerequisites config w = elim (check_squid_installed w) [
    | some e ↦ some e
    | none ↦ if config.redirect_https then check_certs_exist w else none
  ]

  unfoldable pub initial_manager : ProxyConfig → Text → Text → SquidManager
  unfolding extract_ip
  initial_manager config bridge_ip subnet_cidr = record {
    config = config;
    bridge_ip = extract_ip bridge_ip;
    subnet_cidr = subnet_cidr;
    process = none;
    pid = 0;
    global_domains = config.default_domains;
    vm_whitelists = [];
    config_path = config.squid.config_path;
  }

  unfoldable pub new_squid_manager :
      ProxyConfig → Text → Text → W → Result SquidError SquidManager × W
  unfolding check_prerequisites initial_manager
  new_squid_manager config bridge_ip subnet_cidr w = elim (check_prerequisites config w) [
    | some e ↦ (err e, w)
    | none ↦
        let s = initial_manager config bridge_ip subnet_cidr in
        let (failure, w1) = generate_config s w in
        (elim failure [ some e ↦ err (config_not_generated e) | none ↦ ok s ], w1)
  ]

  unfoldable pub initialize_cache_dir : SquidManager → W → Bool × W
  initialize_cache_dir s w = elim (h.stat (s.config.squid.cache_dir ++ text "/00") w) [
    | found ↦ (true, w)
    | _ ↦ h.run (text "squid" ∷ text "-f" ∷ s.config_path ∷ text "-z" ∷ []) w
  ]

  -- The checks of Start once the process has been started, and its cleanup if they fail.
  verify_started : SquidManager → W → Option SquidError × SquidManager × W
  verify_started s w = elim s.process [
    | none ↦ (some terminated, record s { pid = 0; process = none }, w)
    | some p ↦
        if h.alive p w
        then (none, s, w)
        else (some not_responding, record s { pid = 0; process = none }, h.kill p w)
  ]

  start_process : SquidManager → W → Option SquidError × SquidManager × W
  unfolding verify_started
  start_process s w =
      let (started, w1) = h.spawn (text "squid" ∷ text "-f" ∷ s.config_path ∷ text "-N" ∷ []) w in
      elim started [
        | none ↦ (some not_started, s, w1)
        | some p ↦ verify_started (record s { process = some p; pid = p }) w1
      ]

  unfoldable pub start : SquidManager → W → Option SquidError × SquidManager × W
  unfolding start_process initialize_cache_dir
  start s w =
      if not (s.pid == 0)
      then (some (already_running s.pid), s, w)
      else let (ready, w1) = initialize_cache_dir s w in
        if not ready then (some cache_not_initialized, s, w1) else start_process s w1

  -- The process handle is asked to exit, and killed if it does not within the time limit.
  await_exit : Option ℕ → W → W
  await_exit none w = w
  await_exit (some p) w = let (exited, w1) = h.exits p w in if exited then w1 else h.kill p w1

  kill_process : Option ℕ → W → W
  kill_process none w = w
  kill_process (some p) w = h.kill p w

  -- Stop reports no error on any path.
  unfoldable pub stop : SquidManager → W → Option SquidError × SquidManager × W
  unfolding await_exit kill_process
  stop s w =
      if s.pid == 0
      then (none, s, w)
      else let (shut, w1) =
          h.run (text "squid" ∷ text "-f" ∷ s.config_path ∷ text "-k" ∷ text "shutdown" ∷ []) w in
        let w2 = if shut then w1 else kill_process s.process w1 in
        (none, record s { pid = 0; process = none }, await_exit s.process w2)

  unfoldable pub reload : SquidManager → W → Option SquidError × W
  reload s w =
      if s.pid == 0
      then (some not_running, w)
      else let (done, w1) =
          h.run (text "squid" ∷ text "-f" ∷ s.config_path ∷ text "-k" ∷ text "reconfigure" ∷ [])
            w in
        (if done then none else some not_reloaded, w1)

  -- The file is written anew from the manager as it now is.
  regenerate : SquidManager → W → Option SquidError × SquidManager × W
  regenerate s w =
      let (failure, w1) = generate_config s w in
      (elim failure [ some e ↦ some (config_not_regenerated e) | none ↦ none ], s, w1)

  unfoldable pub update_global_whitelist :
      List Text → SquidManager → W → Option SquidError × SquidManager × W
  unfolding regenerate
  update_global_whitelist domains s w = regenerate (record s { global_domains = domains }) w

  unfoldable pub update_vm_whitelist :
      Text → VmWhitelistData → SquidManager → W → Option SquidError × SquidManager × W
  unfolding regenerate
  update_vm_whitelist vm_id entry s w =
      regenerate (record s { vm_whitelists = insert vm_id entry s.vm_whitelists }) w

  pub remove_vm_whitelist : Text → SquidManager → W → Option SquidError × SquidManager × W
  unfolding regenerate
  remove_vm_whitelist vm_id s w =
      regenerate (record s { vm_whitelists = delete vm_id s.vm_whitelists }) w

  -- `os.FindProcess` finds every process on Unix.
  pub health : SquidManager → W → Option SquidError
  health s w =
      if s.pid == 0 then some not_running else if h.alive s.pid w then none else some not_responding
