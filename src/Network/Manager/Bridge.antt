-- ===== src/Network/Manager/Bridge.antt =====
-- SetupBridge, setupNAT and getDefaultInterface of services/core/pkg/network/network.go.
pub mod Setup
use aetherium.Base.{
  ℕ, Bool, true, false, not, ◌&&◌, ◌||◌, Option, none, some, List, [], ◌∷◌, ltb, ◌==◌,
  if◌then◌else◌, length, take, drop, Text, text, text_eq,
}
use aetherium.Network.Host.{Host}
use aetherium.Network.Manager.{
  NetworkConfig, Manager, NetworkError, bridge_not_up, bridge_not_created, proxy_not_started,
  forwarding_not_enabled, host_interface_not_detected, nat_rule_not_added, forward_in_not_added,
  forward_out_not_added,
}
use aetherium.Network.Proxy
use aetherium.Network.Proxy.{ProxyManager}

-- The bytes up to the next space or newline, none if there is neither.
unfoldable pub until_break : Text → Option Text
until_break [] = none
until_break (c ∷ s) =
    let rest = until_break s in
    if c == b' ' || c == 10
    then some []
    else elim rest [ none ↦ none | some word ↦ some (c ∷ word) ]

-- The loop over the text of the default route. At a space followed by "dev", the interface is the
-- word that begins five bytes on; the byte between is not looked at.
unfoldable pub dev_interface : Text → Option Text
unfolding until_break
dev_interface [] = none
dev_interface (c ∷ s) =
    let rest = dev_interface s in
    if c == b' ' && (ltb 3 (length s) && text_eq (take 3 s) (text "dev"))
    then elim (until_break (drop 4 s)) [ none ↦ rest | some word ↦ some word ]
    else rest

module _ {W : Type 0} (h : Host W) where
  unfoldable pub get_default_interface : W → Option Text × W
  unfolding dev_interface
  get_default_interface w =
      let (route, w1) = h.output (text "ip" ∷ text "route" ∷ text "show" ∷ text "default" ∷ []) w in
      (elim route [ none ↦ none | some s ↦ dev_interface s ], w1)

  masquerade : Text → NetworkConfig → Text → List Text
  masquerade action c iface =
      text "iptables"
      ∷ text "-t"
      ∷ text "nat"
      ∷ action
      ∷ text "POSTROUTING"
      ∷ text "-s"
      ∷ c.subnet_cidr
      ∷ text "-o"
      ∷ iface
      ∷ text "-j"
      ∷ text "MASQUERADE"
      ∷ []

  forward : Text → Text → NetworkConfig → List Text
  forward action direction c =
      text "iptables"
      ∷ action
      ∷ text "FORWARD"
      ∷ direction
      ∷ c.bridge_name
      ∷ text "-j"
      ∷ text "ACCEPT"
      ∷ []

  -- Rules for the usual interfaces other than the host's are deleted, failures ignored.
  delete_wrong : List Text → NetworkConfig → Text → W → W
  unfolding masquerade
  delete_wrong [] c iface w = w
  delete_wrong (wrong ∷ more) c iface w =
      delete_wrong more c iface
        (if not (text_eq wrong iface) then (h.run (masquerade (text "-D") c wrong) w).1 else w)

  -- A rule is added unless the check finds it.
  check_or_add : List Text → List Text → W → Bool × W
  check_or_add check add w =
      let (present, w1) = h.run check w in if present then (true, w1) else h.run add w1

  add_rules : NetworkConfig → Text → W → Option NetworkError × W
  unfolding delete_wrong check_or_add masquerade forward
  add_rules c iface w =
      let w1 =
        delete_wrong (text "eth0" ∷ text "eth1" ∷ text "wlan0" ∷ text "wlan1" ∷ []) c iface w in
      let (nat, w2) =
        check_or_add (masquerade (text "-C") c iface) (masquerade (text "-A") c iface) w1 in
      if not nat
      then (some nat_rule_not_added, w2)
      else let (inward, w3) =
          check_or_add (forward (text "-C") (text "-i") c) (forward (text "-A") (text "-i") c) w2 in
        if not inward
        then (some forward_in_not_added, w3)
        else let (outward, w4) =
            check_or_add (forward (text "-C") (text "-o") c) (forward (text "-A") (text "-o") c)
              w3 in
          (if outward then none else some forward_out_not_added, w4)

  unfoldable pub setup_nat : NetworkConfig → W → Option NetworkError × W
  unfolding get_default_interface add_rules
  setup_nat c w =
      let (forwarding, w1) =
        h.run (text "sysctl" ∷ text "-w" ∷ text "net.ipv4.ip_forward=1" ∷ []) w in
      if not forwarding
      then (some forwarding_not_enabled, w1)
      else if not (text_eq c.host_interface [])
      then add_rules c c.host_interface w1
      else let (detected, w2) = get_default_interface w1 in
        elim detected [
          | none ↦ (some host_interface_not_detected, w2)
          | some iface ↦ add_rules c iface w2
        ]

  pub link_up : NetworkConfig → W → Bool × W
  link_up c w = h.run (text "ip" ∷ text "link" ∷ text "set" ∷ c.bridge_name ∷ text "up" ∷ []) w

  -- The address is set and the bridge brought up; an address that cannot be set is ignored.
  pub bring_up : NetworkConfig → W → Bool × W
  unfolding link_up
  bring_up c w =
      link_up c
        (h.run
          (text "ip" ∷ text "addr" ∷ text "add" ∷ c.bridge_ip ∷ text "dev" ∷ c.bridge_name ∷ [])
          w).1

  unfoldable pub start_proxy : Manager → W → Option NetworkError × Manager × W
  start_proxy m w = elim m.proxy_manager [
    | none ↦ (none, record m { bridge_setup = true }, w)
    | some p ↦
        let (failure, p', w1) = Proxy.start h p w in
        let m' = record m { proxy_manager = some p' } in
        elim failure [
          | some e ↦ (some (proxy_not_started e), m', w1)
          | none ↦ (none, record m' { bridge_setup = true }, w1)
        ]
  ]

  unfoldable pub create_bridge : Manager → W → Option NetworkError × Manager × W
  create_bridge m w =
      let (made, w1) =
        h.run
          (text "ip"
            ∷ text "link"
            ∷ text "add"
            ∷ m.config.bridge_name
            ∷ text "type"
            ∷ text "bridge"
            ∷ [])
          w in
      if not made
      then (some bridge_not_created, m, w1)
      else let (up, w2) = bring_up m.config w1 in
        if not up
        then (some bridge_not_up, m, w2)
        else if not m.config.enable_nat
        then start_proxy m w2
        else let (failure, w3) = setup_nat m.config w2 in
          elim failure [ some e ↦ (some e, m, w3) | none ↦ start_proxy m w3 ]

  -- A bridge that is there already is brought up if need be, and nothing else is done.
  unfoldable pub setup_bridge : Manager → W → Option NetworkError × Manager × W
  setup_bridge m w =
      if m.bridge_setup then (none, m, w) else elim (h.interface_up m.config.bridge_name w) [
        | none ↦ create_bridge m w
        | some true ↦ (none, record m { bridge_setup = true }, w)
        | some false ↦
            let (up, w1) = link_up m.config w in
            if up then (none, record m { bridge_setup = true }, w1) else (some bridge_not_up, m, w1)
      ]
