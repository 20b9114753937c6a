-- ===== src/Network.antt =====
-- services/core/pkg/network: IP addresses, TAP devices, the bridge, and the egress proxy.
pub mod Address
pub mod Allocator
pub mod Host
pub mod Config
pub mod Squid
pub mod Proxy
pub mod Cidr
pub mod Mac
pub mod Manager
pub mod Log
pub mod Examples
pub mod ProxyExamples
