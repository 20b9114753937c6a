-- ===== src/Network/Config.antt =====
-- ProxyConfig and SquidConfig of libs/common/pkg/config/config.go, as far as the proxy reads them.
use aetherium.Base.{ℕ, Bool, List, Text}

pub record SquidConfig : Type 0 where
  pub config_path : Text
  pub cache_dir : Text
  pub cache_size_mb : ℕ
  pub access_log : Text
  pub cache_log : Text

pub record ProxyConfig : Type 0 where
  pub enabled : Bool
  pub provider : Text
  pub transparent : Bool
  pub port : ℕ
  pub whitelist_mode : Text
  pub default_domains : List Text
  pub squid : SquidConfig
  pub redirect_http : Bool
  pub redirect_https : Bool
