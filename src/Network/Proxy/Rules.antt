-- ===== src/Network/Proxy/Rules.antt =====
-- setupTransparentProxy and removeTransparentProxyRules of services/core/pkg/network/proxy.go: the
-- iptables rules that redirect web traffic of the bridge to the proxy.
pub mod Table
use aetherium.Base.{
  ℕ, ◌+◌, Bool, true, false, not, Option, none, some, List, [], ◌∷◌, ◌++◌, if◌then◌else◌, drop,
  Text, text, itoa,
}
use aetherium.Network.Config.{ProxyConfig}
use aetherium.Network.Host.{Host}

pub data RuleError : Type 0 where
  http_rule_not_added https_rule_not_added : RuleError

abbrev bridge_name : Text
bridge_name = text "aetherium0"

-- The match and target of a redirection of one TCP port.
unfoldable pub redirect_match : Text → ℕ → List Text
redirect_match dport to_port =
    text "-i"
    ∷ bridge_name
    ∷ text "-p"
    ∷ text "tcp"
    ∷ text "--dport"
    ∷ dport
    ∷ text "-j"
    ∷ text "REDIRECT"
    ∷ text "--to-port"
    ∷ itoa to_port
    ∷ []

-- `-t nat -A PREROUTING ...`, with the action in place of `-A`.
unfoldable pub rule : Text → Text → ℕ → List Text
unfolding redirect_match
rule action dport to_port =
    text "-t" ∷ text "nat" ∷ action ∷ text "PREROUTING" ∷ redirect_match dport to_port

unfoldable pub http_rule : Text → ProxyConfig → List Text
unfolding rule
http_rule action c = rule action (text "80") c.port

unfoldable pub https_rule : Text → ProxyConfig → List Text
unfolding rule
https_rule action c = rule action (text "443") (c.port + 1)

module _ {W : Type 0} (h : Host W) where
  -- The rule is added unless a check, made of the words behind the fourth, finds it. True if all
  -- is well.
  unfoldable pub ensure_rule : List Text → W → Bool × W
  ensure_rule r w =
      let check = text "-t" ∷ text "nat" ∷ text "-C" ∷ text "PREROUTING" ∷ drop 4 r in
      let (present, w1) = h.run (text "iptables" ∷ check) w in
      if present then (true, w1) else h.run (text "iptables" ∷ r) w1

  ensure_https : ProxyConfig → W → Option RuleError × W
  unfolding https_rule ensure_rule
  ensure_https c w =
      if not c.redirect_https
      then (none, w)
      else let (done, w1) = ensure_rule (https_rule (text "-A") c) w in
        (if done then none else some https_rule_not_added, w1)

  unfoldable pub setup_transparent_proxy : ProxyConfig → W → Option RuleError × W
  unfolding ensure_https http_rule
  setup_transparent_proxy c w =
      if not c.redirect_http
      then ensure_https c w
      else let (done, w1) = ensure_rule (http_rule (text "-A") c) w in
        if done then ensure_https c w1 else (some http_rule_not_added, w1)

  -- Failures are ignored.
  unfoldable pub remove_transparent_proxy_rules : ProxyConfig → W → W
  unfolding http_rule https_rule
  remove_transparent_proxy_rules c w =
      let w1 =
        if c.redirect_http then (h.run (text "iptables" ∷ http_rule (text "-D") c) w).1 else w in
      if c.redirect_https then (h.run (text "iptables" ∷ https_rule (text "-D") c) w1).1 else w1
