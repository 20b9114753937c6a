-- ===== src/Network/Manager.antt =====
-- Manager of services/core/pkg/network/network.go: its state, and the constructors. The mutex makes
-- each method atomic.
pub mod Tap
pub mod Leases
pub mod Lifecycle
pub mod Release
pub mod Bridge
pub mod Egress
use aetherium.Base.{
  ℕ, Bool, true, false, not, Option, none, some, [], if◌then◌else◌, Result, ok, err, Text, Map,
}
use aetherium.Network.Allocator.{IpAllocator, AllocError, new_allocator}
use aetherium.Network.Address.{Subnet}
use aetherium.Network.Cidr.{parse_cidr}
use aetherium.Network.Config.{ProxyConfig}
use aetherium.Network.Host.{Host}
use aetherium.Network.Squid.{SquidError}
use aetherium.Network.Proxy.{ProxyManager, ProxyError, new_proxy_manager}

pub record NetworkConfig : Type 0 where
  pub bridge_name : Text
  pub bridge_ip : Text
  pub subnet_cidr : Text
  pub tap_prefix : Text
  pub enable_nat : Bool
  pub host_interface : Text

pub record TapDevice : Type 0 where
  pub name : Text
  pub ip_address : Text
  pub gateway : Text
  pub mac_addr : Text

pub record Manager : Type 0 where
  pub config : NetworkConfig
  pub tap_devices : Map TapDevice
  pub ip_allocator : IpAllocator
  pub proxy_manager : Option ProxyManager
  pub bridge_setup : Bool

pub data NetworkError : Type 0 where
  invalid_subnet_cidr vm_not_found : NetworkError
  squid_failed : SquidError → NetworkError
  proxy_not_created proxy_not_started proxy_failed : ProxyError → NetworkError
  ip_not_allocated : AllocError → NetworkError
  tap_not_created tap_not_attached tap_not_up : NetworkError
  bridge_not_up bridge_not_created : NetworkError
  forwarding_not_enabled host_interface_not_detected nat_rule_not_added : NetworkError
  forward_in_not_added forward_out_not_added : NetworkError

unfoldable pub initial_manager : NetworkConfig → Subnet → Manager
initial_manager config subnet = record {
  config = config;
  tap_devices = [];
  ip_allocator = new_allocator subnet;
  proxy_manager = none;
  bridge_setup = false;
}

unfoldable pub new_manager : NetworkConfig → Result NetworkError Manager
unfolding initial_manager
new_manager config = elim (parse_cidr config.subnet_cidr) [
  | none ↦ err invalid_subnet_cidr
  | some subnet ↦ ok (initial_manager config subnet)
]

unfoldable pub new_manager_with_proxy :
    {W : Type 0} → Host W → NetworkConfig → ProxyConfig → W → Result NetworkError Manager × W
unfolding initial_manager
new_manager_with_proxy h config proxy w = elim (parse_cidr config.subnet_cidr) [
  | none ↦ (err invalid_subnet_cidr, w)
  | some subnet ↦
      if not proxy.enabled
      then (ok (initial_manager config subnet), w)
      else let (made, w1) = new_proxy_manager h proxy config.bridge_ip config.subnet_cidr w in
        (
          elim made [
            | err e ↦ err (proxy_not_created e)
            | ok p ↦ ok (record (initial_manager config subnet) { proxy_manager = some p })
          ],
          w1,
        )
]
