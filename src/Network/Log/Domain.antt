-- ===== src/Network/Log/Domain.antt =====
-- What extractDomain finds (services/core/pkg/network/proxy.go).
use aetherium.Base.{
  ◌≡◌, refl, true, false, [], ◌∷◌, ◌++◌, arith, drop-append, Text, text, Lacks, Lacks-append,
  first_part, first_part-append, first_part_whole, first_part-Lacks, first_part-Lacks_sep,
}
use aetherium.Network.Log.{has_prefix, trim_prefix, extract_domain}

-- The domain has neither a slash nor a colon, whatever the URL.
pub extract_domain-Lacks :
    (url : Text) → Lacks b'/' (extract_domain url) × Lacks b':' (extract_domain url)
unfolding extract_domain
extract_domain-Lacks url =
    let bare = trim_prefix (text "https://") (trim_prefix (text "http://") url) in
    (
      first_part-Lacks b'/' b':' (first_part b'/' bare) (first_part-Lacks_sep b'/' bare),
      first_part-Lacks_sep b':' (first_part b'/' bare),
    )

has_prefix-append : (p s : Text) → has_prefix p (p ++ s) ≡ true
unfolding has_prefix
has_prefix-append [] s = refl
has_prefix-append (c ∷ p) s = ground (arith, has_prefix-append p s)

trim_prefix-append : (p s : Text) → trim_prefix p (p ++ s) ≡ s
unfolding trim_prefix
trim_prefix-append p s = rw (has_prefix-append p s, drop-append p s)

trim_prefix_none : (p s : Text) → has_prefix p s ≡ false → trim_prefix p s ≡ s
unfolding trim_prefix
trim_prefix_none p s e = rw e

-- A scheme, up to its colon, is no prefix of a host that is followed by a slash.
host_slash :
    (p q host path : Text)
    → Lacks b'/' p
    → Lacks b':' host
    → has_prefix (p ++ b':' ∷ q) (host ++ b'/' ∷ path) ≡ false
unfolding has_prefix
host_slash [] q [] path hp hh = refl
host_slash [] q (c ∷ host) path hp hh = ground arith
host_slash (x ∷ p) q [] path hp hh = ground arith
host_slash (x ∷ p) q (c ∷ host) path hp hh = ground (arith, host_slash p q host path hp.1 hh.1)

-- A scheme with its slash is no prefix of a host and a port.
host_port :
    (p q host port : Text)
    → Lacks b'/' p
    → Lacks b':' p
    → Lacks b':' host
    → Lacks b'/' port
    → has_prefix (p ++ b':' ∷ b'/' ∷ q) (host ++ b':' ∷ port) ≡ false
unfolding has_prefix
host_port [] q [] [] hp hc hh ht = refl
host_port [] q [] (t ∷ port) hp hc hh ht = ground arith
host_port [] q (c ∷ host) port hp hc hh ht = ground arith
host_port (x ∷ p) q [] port hp hc hh ht = ground arith
host_port (x ∷ p) q (c ∷ host) port hp hc hh ht =
    ground (arith, host_port p q host port hp.1 hc.1 hh.1 ht)

first_parts :
    (host path : Text)
    → Lacks b'/' host
    → Lacks b':' host
    → first_part b':' (first_part b'/' (host ++ b'/' ∷ path)) ≡ host
first_parts host path hs hc =
    rw (first_part-append b'/' host path hs) (first_part_whole b':' host hc)

https_slash : Lacks b'/' (text "https")
https_slash = (refl, (refl, (refl, (refl, (refl, tt)))))

https_colon : Lacks b':' (text "https")
https_colon = (refl, (refl, (refl, (refl, (refl, tt)))))

http_slash : Lacks b'/' (text "http")
http_slash = (refl, (refl, (refl, (refl, tt))))

http_colon : Lacks b':' (text "http")
http_colon = (refl, (refl, (refl, (refl, tt))))

-- The host of an http URL with a path is found.
pub extract_domain-http :
    (host path : Text)
    → Lacks b'/' host
    → Lacks b':' host
    → extract_domain (text "http://" ++ (host ++ b'/' ∷ path)) ≡ host
unfolding extract_domain
extract_domain-http host path hs hc =
    rw
      (
        trim_prefix-append (text "http://") (host ++ b'/' ∷ path),
        trim_prefix_none (text "https://") (host ++ b'/' ∷ path)
            (host_slash (text "https") (text "//") host path https_slash hc),
      )
      (first_parts host path hs hc)

-- The host of a tunnel's target, host and port with no scheme, is found.
pub extract_domain-connect :
    (host port : Text)
    → Lacks b'/' host
    → Lacks b':' host
    → Lacks b'/' port
    → extract_domain (host ++ b':' ∷ port) ≡ host
unfolding extract_domain
extract_domain-connect host port hs hc ht =
    rw
      (
        trim_prefix_none (text "http://") (host ++ b':' ∷ port)
            (host_port (text "http") (text "/") host port http_slash http_colon hc ht),
        trim_prefix_none (text "https://") (host ++ b':' ∷ port)
            (host_port (text "https") (text "/") host port https_slash https_colon hc ht),
        first_part_whole b'/' (host ++ b':' ∷ port)
            (Lacks-append b'/' host (b':' ∷ port) hs (refl, ht)),
      )
      (first_part-append b':' host port hc)
