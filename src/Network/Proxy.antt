-- ===== src/Network/Proxy.antt =====
-- ProxyManager of services/core/pkg/network/proxy.go: the proxy's life cycle over Squid and the
-- iptables redirection. The mutex makes each method atomic, except that the two whitelist updates
-- release it before their Reload; they are modelled with no call of another thread in between.
pub mod Rules
pub mod Lifecycle
pub mod Whitelists
use aetherium.Base.{
  ℕ, Bool, true, false, not, ◌&&◌, ◌||◌, Option, none, some, List, [], ◌∷◌, if◌then◌else◌, Result,
  ok, err, Text, text, text_eq,
}
use aetherium.Network.Config.{ProxyConfig}
use aetherium.Network.Host.{Host, VmWhitelistData}
use aetherium.Network.Squid
use aetherium.Network.Squid.{SquidManager, SquidError, new_squid_manager}
use Rules.{RuleError, setup_transparent_proxy, remove_transparent_proxy_rules}

pub record ProxyManager : Type 0 where
  pub config : ProxyConfig
  pub bridge_ip : Text
  pub subnet_cidr : Text
  pub squid_manager : Option SquidManager
  pub running : Bool
  pub squid_pid : ℕ

pub data ProxyError : Type 0 where
  squid_not_created squid_not_started squid_not_stopped squid_not_reloaded : SquidError → ProxyError
  whitelist_not_updated vm_whitelist_not_updated squid_unhealthy : SquidError → ProxyError
  transparent_proxy_not_set_up : RuleError → ProxyError
  not_running : ProxyError

abbrev pub Outcome : Type 0 → Type 0
Outcome W = Option ProxyError × ProxyManager × W

module _ {W : Type 0} (h : Host W) where
  with_squid : ProxyConfig → Text → Text → Option SquidManager → ProxyManager
  with_squid config bridge_ip subnet_cidr squid = record {
    config = config;
    bridge_ip = bridge_ip;
    subnet_cidr = subnet_cidr;
    squid_manager = squid;
    running = false;
    squid_pid = 0;
  }

  pub new_proxy_manager : ProxyConfig → Text → Text → W → Result ProxyError ProxyManager × W
  unfolding with_squid
  new_proxy_manager config bridge_ip subnet_cidr w =
      if not config.enabled
      then (ok (with_squid config bridge_ip subnet_cidr none), w)
      else if not (text_eq config.provider (text "squid"))
      then (ok (with_squid config bridge_ip subnet_cidr none), w)
      else let (made, w1) = new_squid_manager h config bridge_ip subnet_cidr w in
        (
          elim made [
            | err e ↦ err (squid_not_created e)
            | ok s ↦ ok (with_squid config bridge_ip subnet_cidr (some s))
          ],
          w1,
        )

  -- Squid is started if there is one, and its process id noted.
  start_squid : ProxyManager → W → Outcome W
  start_squid p w = elim p.squid_manager [
    | none ↦ (none, p, w)
    | some s ↦
        let (failure, s', w1) = Squid.start h s w in
        elim failure [
          | some e ↦ (some (squid_not_started e), record p { squid_manager = some s' }, w1)
          | none ↦ (none, record p { squid_manager = some s'; squid_pid = s'.pid }, w1)
        ]
  ]

  -- The error of Stop is ignored here.
  stop_quietly : ProxyManager → W → ProxyManager × W
  stop_quietly p w = elim p.squid_manager [
    | none ↦ (p, w)
    | some s ↦ let (_, s', w1) = Squid.stop h s w in (record p { squid_manager = some s' }, w1)
  ]

  redirect : ProxyManager → W → Outcome W
  unfolding stop_quietly
  redirect p w =
      if not p.config.transparent
      then (none, record p { running = true }, w)
      else let (failure, w1) = setup_transparent_proxy h p.config w in
        elim failure [
          | some e ↦
              let (p', w2) = stop_quietly p w1 in (some (transparent_proxy_not_set_up e), p', w2)
          | none ↦ (none, record p { running = true }, w1)
        ]

  unfoldable pub start : ProxyManager → W → Outcome W
  unfolding start_squid redirect
  start p w =
      if not p.config.enabled
      then (none, p, w)
      else if p.running
      then (none, p, w)
      else let (failure, p1, w1) = start_squid p w in
        elim failure [ some e ↦ (some e, p1, w1) | none ↦ redirect p1 w1 ]

  stop_squid : ProxyManager → W → Outcome W
  stop_squid p w = elim p.squid_manager [
    | none ↦ (none, p, w)
    | some s ↦
        let (failure, s', w1) = Squid.stop h s w in
        (
          elim failure [ some e ↦ some (squid_not_stopped e) | none ↦ none ],
          record p { squid_manager = some s' },
          w1,
        )
  ]

  unfoldable pub stop : ProxyManager → W → Outcome W
  unfolding stop_squid
  stop p w =
      if not p.config.enabled || not p.running
      then (none, p, w)
      else let w1 =
          if p.config.transparent then remove_transparent_proxy_rules h p.config w else w in
        let (failure, p1, w2) = stop_squid p w1 in
        elim failure [
          | some e ↦ (some e, p1, w2)
          | none ↦ (none, record p1 { running = false; squid_pid = 0 }, w2)
        ]

  unfoldable pub reload : ProxyManager → W → Option ProxyError × W
  reload p w = if not p.config.enabled || not p.running then (none, w) else elim p.squid_manager [
    | none ↦ (none, w)
    | some s ↦
        let (failure, w1) = Squid.reload h s w in
        (elim failure [ some e ↦ some (squid_not_reloaded e) | none ↦ none ], w1)
  ]

  -- The end of an update: Reload, once the lock is released.
  then_reload : ProxyManager → W → Outcome W
  unfolding reload
  then_reload p w = let (failure, w1) = reload p w in (failure, p, w1)

  unfoldable pub update_whitelist : List Text → ProxyManager → W → Outcome W
  unfolding then_reload
  update_whitelist domains p0 w =
      let p = record p0 { config = record p0.config { default_domains = domains } } in
      if not p.config.enabled || not p.running then (none, p, w) else elim p.squid_manager [
        | none ↦ then_reload p w
        | some s ↦
            let (failure, s', w1) = Squid.update_global_whitelist h domains s w in
            let p' = record p { squid_manager = some s' } in
            elim failure [
              | some e ↦ (some (whitelist_not_updated e), p', w1)
              | none ↦ then_reload p' w1
            ]
      ]

  unfoldable pub update_vm_whitelist :
      (vm_id vm_name vm_ip : Text) (domains : List Text) → ProxyManager → W → Outcome W
  unfolding then_reload
  update_vm_whitelist vm_id vm_name vm_ip domains p w =
      if not p.config.enabled || not p.running then (none, p, w) else elim p.squid_manager [
        | none ↦ then_reload p w
        | some s ↦
            let entry : VmWhitelistData = record {
              name = vm_name;
              ip = vm_ip;
              domains = domains;
            } in
            let (failure, s', w1) = Squid.update_vm_whitelist h vm_id entry s w in
            let p' = record p { squid_manager = some s' } in
            elim failure [
              | some e ↦ (some (vm_whitelist_not_updated e), p', w1)
              | none ↦ then_reload p' w1
            ]
      ]

  pub health : ProxyManager → W → Option ProxyError
  health p w =
      if not p.config.enabled
      then none
      else if not p.running
      then some not_running
      else elim p.squid_manager [
        | none ↦ none
        | some s ↦ elim (Squid.health h s w) [ some e ↦ some (squid_unhealthy e) | none ↦ none ]
      ]
