-- ===== src/Network/Log.antt =====
-- The access log of Squid: parseSquidLogLine and extractDomain of
-- services/core/pkg/network/proxy.go, GetBlockedRequests and countBlockedRequests of squid.go, with
-- what they use of `strings` and `strconv` on ASCII text.
pub mod Domain
pub mod Blocked
use aetherium.Base.{
  ℕ, zero, suc, ◌+◌, ◌-◌, ◌*◌, ◌^◌, ◌≡◌, refl, Bool, true, false, not, ◌&&◌, ◌||◌, Option, none,
  some, List, [], ◌∷◌, reverse, leb, ltb, ◌==◌, if◌then◌else◌, length, get_elem?, take, drop,
  Result, ok, err, Text, text, text_eq, split_on, first_part,
}
use aetherium.Network.Host.{Host, FileRead, no_file, open_failed, lines}

-- The bytes at which `strings.Fields` cuts.
unfoldable pub is_space : ℕ → Bool
is_space c = c == b' ' || (leb 9 c && leb c 13)

abbrev pub cons_field : Text → List Text → List Text
cons_field [] rest = rest
cons_field (c ∷ s) rest = (c ∷ s) ∷ rest

-- The first field, which may be empty so far, and the fields behind it.
unfoldable pub fields_from : Text → Text × List Text
unfolding is_space
fields_from [] = ([], [])
fields_from (c ∷ s) =
    let (word, rest) = fields_from s in
    if is_space c then ([], cons_field word rest) else (c ∷ word, rest)

unfoldable pub fields : Text → List Text
unfolding fields_from
fields s = let (word, rest) = fields_from s in cons_field word rest

unfoldable pub has_prefix : Text → Text → Bool
has_prefix [] s = true
has_prefix (p ∷ ps) [] = false
has_prefix (p ∷ ps) (c ∷ s) = p == c && has_prefix ps s

unfoldable pub trim_prefix : Text → Text → Text
unfolding has_prefix
trim_prefix p s = if has_prefix p s then drop (length p) s else s

-- `strings.Contains`.
unfoldable pub contains : Text → Text → Bool
unfolding has_prefix
contains p [] = has_prefix p []
contains p (c ∷ s) = has_prefix p (c ∷ s) || contains p s

-- `negsuc n` is -(n + 1).
pub data ℤ : Type 0 where
  pos : ℕ → ℤ
  negsuc : ℕ → ℤ

unfoldable pub digits_value : ℕ → Text → Option ℕ
digits_value acc [] = some acc
digits_value acc (c ∷ s) =
    let rest = digits_value (acc * 10 + (c - 48)) s in if leb 48 c && leb c 57 then rest else none

some_digits : Text → Option ℕ
unfolding digits_value
some_digits [] = none
some_digits (c ∷ s) = digits_value 0 (c ∷ s)

positive : Option ℕ → Option ℤ
positive none = none
positive (some n) = if ltb n (2 ^ 63) then some (pos n) else none

negative : Option ℕ → Option ℤ
negative none = none
negative (some zero) = some (pos 0)
negative (some (suc n)) = if ltb n (2 ^ 63) then some (negsuc n) else none

-- `strconv.ParseInt(s, 10, 64)`: an optional sign, at least one digit, within 64 bits.
unfoldable pub parse_int : Text → Option ℤ
unfolding some_digits positive negative
parse_int [] = none
parse_int (c ∷ s) =
    if c == b'-'
    then negative (some_digits s)
    else if c == b'+'
    then positive (some_digits s)
    else positive (some_digits (c ∷ s))

unfoldable pub extract_domain : Text → Text
unfolding trim_prefix
extract_domain url =
    let bare = trim_prefix (text "https://") (trim_prefix (text "http://") url) in
    first_part b':' (first_part b'/' bare)

pub record BlockedRequest : Type 0 where
  pub timestamp : ℤ
  pub client_ip : Text
  pub method : Text
  pub url : Text
  pub domain : Text
  pub reason : Text

pub data LogError : Type 0 where
  invalid_format invalid_timestamp invalid_code log_not_opened : LogError

unfoldable pub is_blocked : Text → Text → Bool
is_blocked action status =
    not (not (text_eq status (text "403")) && not (text_eq action (text "TCP_DENIED")))

-- `codeParts[0]` and `codeParts[1]`, if there are two.
abbrev pub code_parts : List Text → Option (Text × Text)
code_parts (action ∷ status ∷ rest) = some (action, status)
code_parts _ = none

-- The line once it is known to have at least ten fields, by the fields that are read.
unfoldable pub parse_fields :
    (time client code method url : Text) → Result LogError (Option BlockedRequest)
unfolding extract_domain is_blocked parse_int
parse_fields time client code method url = elim (parse_int (first_part b'.' time)) [
  | none ↦ err invalid_timestamp
  | some seconds ↦ elim (code_parts (split_on b'/' code)) [
    | none ↦ err invalid_code
    | some (action, status) ↦
        if not (is_blocked action status)
        then ok none
        else ok (
            some (record {
              timestamp = seconds;
              client_ip = client;
              method = method;
              url = url;
              domain = extract_domain url;
              reason = text "Domain not in whitelist";
            }))
  ]
]

-- timestamp elapsed remotehost code/status bytes method URL rfc931 peerstatus/peerhost type
unfoldable pub parse_ten : List Text → Result LogError (Option BlockedRequest)
unfolding parse_fields
parse_ten (f0 ∷ f1 ∷ f2 ∷ f3 ∷ f4 ∷ f5 ∷ f6 ∷ f7 ∷ f8 ∷ f9 ∷ rest) = parse_fields f0 f2 f3 f5 f6
parse_ten _ = err invalid_format

unfoldable pub parse_squid_log_line : Text → Result LogError (Option BlockedRequest)
unfolding parse_ten fields
parse_squid_log_line line = parse_ten (fields line)

abbrev pub push : Option BlockedRequest → List BlockedRequest → List BlockedRequest
push none blocked = blocked
push (some r) blocked = r ∷ blocked

-- The request that a line reports, none for a line that does not parse or was not blocked.
abbrev pub reported : Result LogError (Option BlockedRequest) → Option BlockedRequest
reported (err e) = none
reported (ok r) = r

-- The loop over the lines, the last first. `count` is the length of what has been collected, which
-- is given with the last found in front.
unfoldable pub collect_blocked : ℕ → List Text → List BlockedRequest → List BlockedRequest
collect_blocked limit [] blocked = blocked
collect_blocked limit (line ∷ earlier) blocked =
    let rest =
      collect_blocked limit earlier (push (reported (parse_squid_log_line line)) blocked) in
    if ltb (length blocked) limit then rest else blocked

unfoldable pub blocked_in : ℕ → List Text → List BlockedRequest
unfolding collect_blocked
blocked_in limit log = reverse (collect_blocked limit (reverse log) [])

unfoldable pub count_blocked_in : List Text → ℕ
unfolding contains
count_blocked_in [] = 0
count_blocked_in (line ∷ log) =
    let rest = count_blocked_in log in
    if contains (text "TCP_DENIED") line || contains (text "/403 ") line then suc rest else rest

module _ {W : Type 0} (h : Host W) where
  unfoldable pub get_blocked_requests : Text → ℕ → W → Result LogError (List BlockedRequest)
  unfolding blocked_in
  get_blocked_requests access_log limit w = elim (h.read_lines access_log w) [
    | no_file ↦ ok []
    | open_failed ↦ err log_not_opened
    | lines log ↦ ok (blocked_in limit log)
  ]

  unfoldable pub count_blocked_requests : Text → W → Result LogError ℕ
  unfolding count_blocked_in
  count_blocked_requests access_log w = elim (h.read_lines access_log w) [
    | no_file ↦ ok 0
    | open_failed ↦ err log_not_opened
    | lines log ↦ ok (count_blocked_in log)
  ]
