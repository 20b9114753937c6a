-- ===== src/Network/Log/Blocked.antt =====
-- What GetBlockedRequests returns (services/core/pkg/network/squid.go).
use Prim.Native.Nat.{zero, suc}
use mathlib.Core.List.{reverse-cons, append_assoc, append-nil}
use aetherium.Base.{
  ℕ, ◌-◌, ◌≡◌, refl, sym, ap, ◌∙◌, inl, inr, true, false, Option, none, some, List, [], ◌∷◌, ◌++◌,
  reverse, arith, ltb, if◌then◌else◌, Bool-cases, length, take, Text,
}
use aetherium.Network.Log.{
  BlockedRequest, parse_squid_log_line, push, reported, collect_blocked, blocked_in,
}

-- The blocked requests of a log, in the order of its lines.
pub requests : List Text → List BlockedRequest
requests [] = []
requests (line ∷ rest) = push (reported (parse_squid_log_line line)) (requests rest)

push-take :
    (limit : ℕ) (r : Option BlockedRequest) (acc rest : List BlockedRequest)
    → ltb (length acc) limit ≡ true
    → reverse (push r acc) ++ take (limit - length (push r acc)) rest
      ≡ reverse acc ++ take (limit - length acc) (push r rest)
push-take limit none acc rest e = refl
push-take limit (some r) acc rest e =
    let q : limit - length acc ≡ suc (limit - suc (length acc)) = grind arith in
    rw (q, reverse-cons r acc, push)
      (append_assoc (reverse acc) (r ∷ []) (take (limit - suc (length acc)) rest))

take_nil {ℓ} : {A : Type ℓ} (n : ℕ) → take {A = A} n [] ≡ []
take_nil zero = refl
take_nil (suc n) = refl

collect_more :
    (limit : ℕ) (line : Text) (ls : List Text) (acc : List BlockedRequest)
    → ltb (length acc) limit ≡ true
    → collect_blocked limit (line ∷ ls) acc
      ≡ collect_blocked limit ls (push (reported (parse_squid_log_line line)) acc)
unfolding collect_blocked
collect_more limit line ls acc e =
    ap
      (λ b.
        if b
        then collect_blocked limit ls (push (reported (parse_squid_log_line line)) acc)
        else acc)
      e

collect_enough :
    (limit : ℕ) (line : Text) (ls : List Text) (acc : List BlockedRequest)
    → ltb (length acc) limit ≡ false
    → collect_blocked limit (line ∷ ls) acc ≡ acc
unfolding collect_blocked
collect_enough limit line ls acc e =
    ap
      (λ b.
        if b
        then collect_blocked limit ls (push (reported (parse_squid_log_line line)) acc)
        else acc)
      e

collect_lem :
    (limit : ℕ) (ls : List Text) (acc : List BlockedRequest)
    → reverse (collect_blocked limit ls acc)
      ≡ reverse acc ++ take (limit - length acc) (requests ls)
unfolding requests collect_blocked
collect_lem limit [] acc =
    rw (take_nil {A = BlockedRequest} (limit - length acc)) (sym (append-nil (reverse acc)))
collect_lem limit (line ∷ ls) acc = elim (Bool-cases (ltb (length acc) limit)) [
  | inl e ↦
      ap reverse (collect_more limit line ls acc e)
      ∙ collect_lem limit ls (push (reported (parse_squid_log_line line)) acc)
      ∙ push-take limit (reported (parse_squid_log_line line)) acc (requests ls) e
  | inr e ↦
      let q : limit - length acc ≡ 0 = ground arith in
      rw (collect_enough limit line ls acc e, q) (sym (append-nil (reverse acc)))
]

-- The result is the latest `limit` blocked requests of the log, the latest first: no blocked request
-- between them is left out, whatever other lines stand between.
pub blocked_in-requests :
    (limit : ℕ) (log : List Text) → blocked_in limit log ≡ take limit (requests (reverse log))
unfolding blocked_in
blocked_in-requests limit log =
    let q : limit - 0 ≡ limit = omega arith in
    collect_lem limit (reverse log) [] ∙ ap (λ n. take n (requests (reverse log))) q
