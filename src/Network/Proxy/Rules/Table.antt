-- ===== src/Network/Proxy/Rules/Table.antt =====
-- What the redirection does to the nat table (services/core/pkg/network/proxy.go), given what
-- iptables documents of -C, -A and -D.
use Prim.Native.Nat.{max}
use aetherium.Base.{
  ℕ, suc, ◌+◌, ◌-◌, ◌≡◌, ◌≢◌, true, none, List, ◌∷◌, arith, ltb, if◌then◌else◌, Text, text,
}
use aetherium.Network.Config.{ProxyConfig}
use aetherium.Network.Host.{Host}
use aetherium.Network.Proxy.Rules.{
  redirect_match, rule, http_rule, ensure_rule, setup_transparent_proxy,
  remove_transparent_proxy_rules,
}

-- A rule of the chain PREROUTING, under an action.
abbrev pub prerouting : Text → List Text → List Text
prerouting action m = text "iptables" ∷ text "-t" ∷ text "nat" ∷ action ∷ text "PREROUTING" ∷ m

-- The machine seen through the number of copies of each rule in that chain.
pub record NatTable {W : Type 0} (h : Host W) : Type 0 where
  pub count : List Text → W → ℕ
  -- -C answers whether the rule is there.
  pub checked : (m : List Text) (w : W) → (h.run (prerouting (text "-C") m) w).0 ≡ ltb 0 (count m w)
  pub checked_keeps :
      (m n : List Text) (w : W) → count n (h.run (prerouting (text "-C") m) w).1 ≡ count n w
  -- -A that succeeds adds a copy.
  pub appended :
      (m : List Text) (w : W)
      → (h.run (prerouting (text "-A") m) w).0 ≡ true
      → count m (h.run (prerouting (text "-A") m) w).1 ≡ suc (count m w)
  pub appended_other :
      (m n : List Text) (w : W) → m ≢ n → count n (h.run (prerouting (text "-A") m) w).1 ≡ count n w
  -- -D deletes a copy if there is one.
  pub deleted :
      (m : List Text) (w : W) → count m (h.run (prerouting (text "-D") m) w).1 ≡ count m w - 1
  pub deleted_other :
      (m n : List Text) (w : W) → m ≢ n → count n (h.run (prerouting (text "-D") m) w).1 ≡ count n w

abbrev pub http_match : ProxyConfig → List Text
http_match c = redirect_match (text "80") c.port

abbrev pub https_match : ProxyConfig → List Text
https_match c = redirect_match (text "443") (c.port + 1)

pub http_match-ne-https_match : (c : ProxyConfig) → http_match c ≢ https_match c
unfolding redirect_match
http_match-ne-https_match c e = ground arith

module _ {W : Type 0} (h : Host W) (t : NatTable h) where
  -- The facts on one rule, as `ensure_rule` comes to use them.
  pub ensure_rule_once :
      (dport : Text) (port : ℕ) (w : W)
      → (ensure_rule h (rule (text "-A") dport port) w).0 ≡ true
      → t.count (redirect_match dport port) (ensure_rule h (rule (text "-A") dport port) w).1
        ≡ max 1 (t.count (redirect_match dport port) w)
  unfolding ensure_rule rule
  ensure_rule_once dport port w e =
      let m = redirect_match dport port in
      let w1 = (h.run (prerouting (text "-C") m) w).1 in
      ground (arith, t.checked m w, t.checked_keeps m m w, t.appended m w1)

  pub ensure_rule_other :
      (dport : Text) (port : ℕ) (n : List Text) (w : W)
      → redirect_match dport port ≢ n
      → t.count n (ensure_rule h (rule (text "-A") dport port) w).1 ≡ t.count n w
  unfolding ensure_rule rule
  ensure_rule_other dport port n w d =
      let m = redirect_match dport port in
      let w1 = (h.run (prerouting (text "-C") m) w).1 in
      ground (arith, t.checked_keeps m n w, t.appended_other m n w1)

  -- A setup that succeeds leaves each rule asked for in the table, adds no second copy, and does
  -- not touch a rule that is not asked for.
  pub setup_transparent_proxy_once :
      (c : ProxyConfig) (w : W)
      → (setup_transparent_proxy h c w).0 ≡ none
      → let w' = (setup_transparent_proxy h c w).1 in
        (t.count (http_match c) w' ≡ (
          if c.redirect_http then max 1 (t.count (http_match c) w) else t.count (http_match c) w))
        × (t.count (https_match c) w' ≡ (
            if c.redirect_https
            then max 1 (t.count (https_match c) w)
            else t.count (https_match c) w))
  unfolding setup_transparent_proxy
  setup_transparent_proxy_once c w e =
      let w1 = (ensure_rule h (http_rule (text "-A") c) w).1 in
      ground (
        arith,
        http_match-ne-https_match c,
        ensure_rule_once (text "80") c.port w,
        ensure_rule_other (text "80") c.port (https_match c) w,
        ensure_rule_once (text "443") (c.port + 1) w,
        ensure_rule_other (text "443") (c.port + 1) (http_match c) w,
        ensure_rule_once (text "443") (c.port + 1) w1,
        ensure_rule_other (text "443") (c.port + 1) (http_match c) w1,
      )

  -- On a table without the two rules, removal takes back all that a successful setup has put in.
  pub remove-setup_transparent_proxy :
      (c : ProxyConfig) (w : W)
      → (setup_transparent_proxy h c w).0 ≡ none
      → t.count (http_match c) w ≡ 0
      → t.count (https_match c) w ≡ 0
      → let w' = remove_transparent_proxy_rules h c (setup_transparent_proxy h c w).1 in
        (t.count (http_match c) w' ≡ 0) × (t.count (https_match c) w' ≡ 0)
  unfolding remove_transparent_proxy_rules
  remove-setup_transparent_proxy c w e a b =
      let w1 = (setup_transparent_proxy h c w).1 in
      let w2 = (h.run (prerouting (text "-D") (http_match c)) w1).1 in
      ground (
        arith,
        setup_transparent_proxy_once c w,
        http_match-ne-https_match c,
        t.deleted (http_match c) w1,
        t.deleted_other (http_match c) (https_match c) w1,
        t.deleted (https_match c) w1,
        t.deleted_other (https_match c) (http_match c) w1,
        t.deleted (https_match c) w2,
        t.deleted_other (https_match c) (http_match c) w2,
      )
