-- ===== src/Push/Ssrf.antt =====
-- The guard on outbound webhooks (crates/turul-a2a/src/push/ssrf.rs). An address is its octets, or
-- its 16-bit segments; what std's predicates on addresses test is written out, and `x & mask` with
-- a mask of high bits is the multiple of a power of two below `x`.
pub mod Ranges
pub mod Ranges6
pub mod Choice
use turul_a2a.Prelude.{
  ℕ, ◌*◌, ◌/◌, ◌%◌, ◌^◌, String, Bool, true, false, Option, none, some, List, [], ◌∷◌, Result, ok,
  err, ◌==◌, ltb, leb, ◌&&◌, ◌||◌, if◌then◌else◌, str_eq, and_then,
}

-- `std::net::Ipv4Addr`
pub record Ipv4 : Type 0 where
  pub a : ℕ
  pub b : ℕ
  pub c : ℕ
  pub d : ℕ

-- `std::net::Ipv6Addr`
pub record Ipv6 : Type 0 where
  pub s0 : ℕ
  pub s1 : ℕ
  pub s2 : ℕ
  pub s3 : ℕ
  pub s4 : ℕ
  pub s5 : ℕ
  pub s6 : ℕ
  pub s7 : ℕ

-- `std::net::IpAddr`
pub data IpAddr : Type 0 where
  v4 : Ipv4 → IpAddr
  v6 : Ipv6 → IpAddr

pub data SsrfBlockReason : Type 0 where
  private_ip insecure_scheme validator_denied invalid_url dns_resolution_failed : SsrfBlockReason

pub data SsrfDecision : Type 0 where
  allow : IpAddr → SsrfDecision
  block : SsrfBlockReason → SsrfDecision

-- `url::Url`, as far as the guard reads it.
pub record Url : Type 0 where
  pub scheme : String
  pub host_str : Option String

-- `is_blocked_ipv4`: 0.0.0.0, 255.255.255.255, 127/8, 169.254/16, 10/8, 172.16/12, 192.168/16,
-- 224/4 and 100.64/10, in that order.
unfoldable pub is_blocked_ipv4 : Ipv4 → Bool
is_blocked_ipv4 ip =
    ((ip.a == 0) && ((ip.b == 0) && ((ip.c == 0) && (ip.d == 0))))
    || (((ip.a == 255) && ((ip.b == 255) && ((ip.c == 255) && (ip.d == 255))))
        || ((ip.a == 127)
            || (((ip.a == 169) && (ip.b == 254))
                || (((ip.a == 10)
                      || (((ip.a == 172) && (leb 16 ip.b && leb ip.b 31))
                          || ((ip.a == 192) && (ip.b == 168))))
                    || ((leb 224 ip.a && leb ip.a 239)
                        || ((ip.a == 100) && (ip.b / 2 ^ 6 * 2 ^ 6 == 64)))))))

-- `Ipv6Addr::to_ipv4_mapped`
unfoldable pub to_ipv4_mapped : Ipv6 → Option Ipv4
to_ipv4_mapped ip =
    if (ip.s0 == 0)
      && ((ip.s1 == 0) && ((ip.s2 == 0) && ((ip.s3 == 0) && ((ip.s4 == 0) && (ip.s5 == 65535)))))
    then some (record { a = ip.s6 / 256; b = ip.s6 % 256; c = ip.s7 / 256; d = ip.s7 % 256 })
    else none

abbrev pub zero_prefix : Ipv6 → Bool
zero_prefix ip =
    (ip.s0 == 0)
    && ((ip.s1 == 0)
        && ((ip.s2 == 0) && ((ip.s3 == 0) && ((ip.s4 == 0) && ((ip.s5 == 0) && (ip.s6 == 0))))))

-- `is_blocked_ipv6`: ::, ::1, ff00::/8, fe80::/10, fc00::/7, and what the embedded IPv4 address of
-- a mapped one is.
unfoldable pub is_blocked_ipv6 : Ipv6 → Bool
unfolding to_ipv4_mapped is_blocked_ipv4
is_blocked_ipv6 ip =
    (zero_prefix ip && (ip.s7 == 0))
    || ((zero_prefix ip && (ip.s7 == 1))
        || ((ip.s0 / 2 ^ 8 * 2 ^ 8 == 65280)
            || ((ip.s0 / 2 ^ 6 * 2 ^ 6 == 65152)
                || ((ip.s0 / 2 ^ 9 * 2 ^ 9 == 64512) || (elim (to_ipv4_mapped ip) [
                  | none ↦ false
                  | some ip4 ↦ is_blocked_ipv4 ip4
                ])))))

unfoldable pub is_blocked_ip : IpAddr → Bool
unfolding is_blocked_ipv4 is_blocked_ipv6
is_blocked_ip (v4 ip) = is_blocked_ipv4 ip
is_blocked_ip (v6 ip) = is_blocked_ipv6 ip

unfoldable pub validate_scheme : Url → Bool → Result SsrfBlockReason (Unit {0})
validate_scheme url allow_insecure =
    if str_eq url.scheme "https"
    then ok tt
    else if str_eq url.scheme "http" && allow_insecure
    then ok tt
    else err insecure_scheme

-- The operator's check of a URL.
abbrev pub OutboundUrlValidator : Type 0
OutboundUrlValidator = Url → Result String (Unit {0})

abbrev pub validate : Option OutboundUrlValidator → Url → Result SsrfBlockReason (Unit {0})
validate none url = ok tt
validate (some validator) url = elim (validator url) [ ok _ ↦ ok tt | err _ ↦ err validator_denied ]

unfoldable pub check_url :
    Url → Bool → Option OutboundUrlValidator → Result SsrfBlockReason (Unit {0})
unfolding validate_scheme
check_url url allow_insecure validator = elim url.host_str [
  | none ↦ err invalid_url
  | some _ ↦ and_then (validate_scheme url allow_insecure) (λ _. validate validator url)
]

-- The loop of `pick_destination`.
unfoldable pub first_allowed : List IpAddr → Bool → Option IpAddr
unfolding is_blocked_ip
first_allowed [] allow_insecure = none
first_allowed (ip ∷ ips) allow_insecure =
    let rest = first_allowed ips allow_insecure in
    if allow_insecure then some ip else if is_blocked_ip ip then rest else some ip

unfoldable pub pick_destination : List IpAddr → Bool → SsrfDecision
unfolding first_allowed
pick_destination ips allow_insecure = elim (first_allowed ips allow_insecure) [
  | some ip ↦ allow ip
  | none ↦ elim ips [ [] ↦ block dns_resolution_failed | _ ∷ _ ↦ block private_ip ]
]
