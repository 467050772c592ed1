-- ===== src/Push/Ssrf/Ranges6.antt =====
-- The blocked IPv6 addresses as ranges of numbers, the mapped IPv4 addresses among them
-- (crates/turul-a2a/src/push/ssrf.rs).
use turul_a2a.Prelude.{
  ℕ, ◌≡◌, refl, ◌+◌, ◌-◌, ◌*◌, ◌/◌, ◌%◌, ◌^◌, ◌<◌, Bool, true, false, none, some, List, [], ◌∷◌,
  map, any, All, ◌==◌, ◌&&◌, ◌||◌, arith,
}
use turul_a2a.Push.Ssrf.{
  Ipv4, Ipv6, IpAddr, v4, v6, is_blocked_ip, is_blocked_ipv4, is_blocked_ipv6, to_ipv4_mapped,
  zero_prefix,
}
use turul_a2a.Push.Ssrf.Ranges.{
  Range, within, block_of, address_number, IsIpv4, blocked_ipv4, ipv4_ranges,
}

-- The address as one number of 128 bits.
abbrev pub address_number6 : Ipv6 → ℕ
address_number6 ip =
    ip.s0 * 2 ^ 112
    + ip.s1 * 2 ^ 96
    + ip.s2 * 2 ^ 80
    + ip.s3 * 2 ^ 64
    + ip.s4 * 2 ^ 48
    + ip.s5 * 2 ^ 32
    + ip.s6 * 2 ^ 16
    + ip.s7

-- An address whose parts have 16 bits.
pub record IsIpv6 (ip : Ipv6) : Type 0 where
  pub s0 : ip.s0 < 65536
  pub s1 : ip.s1 < 65536
  pub s2 : ip.s2 < 65536
  pub s3 : ip.s3 < 65536
  pub s4 : ip.s4 < 65536
  pub s5 : ip.s5 < 65536
  pub s6 : ip.s6 < 65536
  pub s7 : ip.s7 < 65536

both : (b c : Bool) → (b ≡ true → c ≡ true) → (c ≡ true → b ≡ true) → b ≡ c
both true c f g = ground (arith, f refl)
both false true f g = ground (arith, g refl)
both false false f g = refl

-- The bits above the lowest 16, and above the lowest 48.
abbrev top : Ipv6 → ℕ
top ip = ip.s0 * 2 ^ 64 + ip.s1 * 2 ^ 48 + ip.s2 * 2 ^ 32 + ip.s3 * 2 ^ 16 + ip.s4

abbrev rest : Ipv6 → ℕ
rest ip = top ip * 2 ^ 32 + ip.s5 * 2 ^ 16 + ip.s6

address_number6-rest : (ip : Ipv6) → address_number6 ip ≡ rest ip * 2 ^ 16 + ip.s7
address_number6-rest ip = omega arith

top_zero :
    (ip : Ipv6)
    → ((ip.s0 == 0) && ((ip.s1 == 0) && ((ip.s2 == 0) && ((ip.s3 == 0) && (ip.s4 == 0)))))
      ≡ (top ip == 0)
top_zero ip = ground arith

and_five :
    (a b c d e f : Bool)
    → (a && (b && (c && (d && (e && f))))) ≡ ((a && (b && (c && (d && e)))) && f)
and_five a b c d e f = ground arith

rest_zero : (t a b : ℕ) → ((t == 0) && ((a == 0) && (b == 0))) ≡ (t * 2 ^ 32 + a * 2 ^ 16 + b == 0)
rest_zero t a b = ground arith

low :
    (r z n : ℕ)
    → z < 65536
    → n < 65536
    → ((r == 0) && (z == n)) ≡ within (r * 2 ^ 16 + z) (block_of n 0)
low r z n h g = ground arith

ipv4_small : All (λ (r : Range). r.last < 2 ^ 32) blocked_ipv4
ipv4_small = (
  omega arith,
  (
    omega arith,
    (
      omega arith,
      (omega arith, (omega arith, (omega arith, (omega arith, (omega arith, (omega arith, tt)))))),
    ),
  ),
)

-- A range of IPv4 addresses, as mapped ones: ::ffff:0:0/96.
abbrev pub shift : Range → Range
shift r = record { first = 65535 * 2 ^ 32 + r.first; last = 65535 * 2 ^ 32 + r.last }

mapped_range :
    (t m n : ℕ) (r : Range)
    → m < 65536
    → n < 2 ^ 32
    → r.last < 2 ^ 32
    → (((t == 0) && (m == 65535)) && within n r) ≡ within (t * 2 ^ 48 + m * 2 ^ 32 + n) (shift r)
mapped_range t m n r h g l = ground arith

mapped_ranges :
    (t m n : ℕ) (rs : List Range)
    → m < 65536
    → n < 2 ^ 32
    → All (λ (r : Range). r.last < 2 ^ 32) rs
    → (((t == 0) && (m == 65535)) && any (within n) rs)
      ≡ any (within (t * 2 ^ 48 + m * 2 ^ 32 + n)) (map shift rs)
mapped_ranges t m n [] h g l = ground arith
mapped_ranges t m n (r ∷ rs) h g l =
    ground (arith, mapped_range t m n r h g l.0, mapped_ranges t m n rs h g l.1)

abbrev pub unspecified6 : Range  -- ::
unspecified6 = block_of 0 0

abbrev pub loopback6 : Range  -- ::1
loopback6 = block_of 1 0

abbrev pub multicast6 : Range  -- ff00::/8
multicast6 = block_of (65280 * 2 ^ 112) (2 ^ 120 - 1)

abbrev pub link_local6 : Range  -- fe80::/10
link_local6 = block_of (65152 * 2 ^ 112) (2 ^ 118 - 1)

abbrev pub unique_local6 : Range  -- fc00::/7
unique_local6 = block_of (64512 * 2 ^ 112) (2 ^ 121 - 1)

-- The IPv6 ranges, the mapped IPv4 ranges last.
abbrev pub blocked_ipv6 : List Range
blocked_ipv6 =
    unspecified6 ∷ loopback6 ∷ multicast6 ∷ link_local6 ∷ unique_local6 ∷ map shift blocked_ipv4

module _ (ip : Ipv6) (is : IsIpv6 ip) where
  multicast : (ip.s0 / 2 ^ 8 * 2 ^ 8 == 65280) ≡ within (address_number6 ip) multicast6
  multicast = ground (arith, is.s0, is.s1, is.s2, is.s3, is.s4, is.s5, is.s6, is.s7)

  link_local : (ip.s0 / 2 ^ 6 * 2 ^ 6 == 65152) ≡ within (address_number6 ip) link_local6
  link_local = ground (arith, is.s0, is.s1, is.s2, is.s3, is.s4, is.s5, is.s6, is.s7)

  unique_local : (ip.s0 / 2 ^ 9 * 2 ^ 9 == 64512) ≡ within (address_number6 ip) unique_local6
  unique_local = ground (arith, is.s0, is.s1, is.s2, is.s3, is.s4, is.s5, is.s6, is.s7)

  zero_rest : zero_prefix ip ≡ (rest ip == 0)
  zero_rest = ground (arith, top_zero ip, rest_zero (top ip) ip.s5 ip.s6)

  low6 :
      (n : ℕ)
      → n < 65536
      → (zero_prefix ip && (ip.s7 == n)) ≡ within (address_number6 ip) (block_of n 0)
  low6 n h = rw (zero_rest, address_number6-rest ip) (low (rest ip) ip.s7 n is.s7 h)

  abbrev embedded : Ipv4
  embedded = record { a = ip.s6 / 256; b = ip.s6 % 256; c = ip.s7 / 256; d = ip.s7 % 256 }

  embedded-IsIpv4 : IsIpv4 embedded
  embedded-IsIpv4 = record {
    a = omega (arith, is.s6);
    b = omega arith;
    c = omega (arith, is.s7);
    d = omega arith;
  }

  address_number-embedded : address_number embedded ≡ ip.s6 * 2 ^ 16 + ip.s7
  address_number-embedded = omega arith

  blocked_embedded :
      (elim (to_ipv4_mapped ip) [ none ↦ false | some ip4 ↦ is_blocked_ipv4 ip4 ])
      ≡ (((top ip == 0) && (ip.s5 == 65535)) && is_blocked_ipv4 embedded)
  unfolding to_ipv4_mapped
  blocked_embedded = ground (arith, top_zero ip)

  whole : address_number6 ip ≡ top ip * 2 ^ 48 + ip.s5 * 2 ^ 32 + address_number embedded
  whole = omega (arith, address_number-embedded)

  mapped :
      (elim (to_ipv4_mapped ip) [ none ↦ false | some ip4 ↦ is_blocked_ipv4 ip4 ])
      ≡ any (within (address_number6 ip)) (map shift blocked_ipv4)
  mapped =
      rw (blocked_embedded, ipv4_ranges embedded embedded-IsIpv4, whole)
        (mapped_ranges (top ip) ip.s5 (address_number embedded) blocked_ipv4 is.s5
          (omega (arith, address_number-embedded, is.s6, is.s7)) ipv4_small)

or_five :
    (n : ℕ) (a b c d e : Range) (rs : List Range)
    → (within n a
        || (within n b || (within n c || (within n d || (within n e || any (within n) rs)))))
      ≡ any (within n) (a ∷ b ∷ c ∷ d ∷ e ∷ rs)
or_five n a b c d e rs = ground arith

ipv6_ranges :
    (ip : Ipv6) → IsIpv6 ip → is_blocked_ipv6 ip ≡ any (within (address_number6 ip)) blocked_ipv6
unfolding is_blocked_ipv6
ipv6_ranges ip is =
    rw
      (
        low6 ip is 0 (omega arith),
        low6 ip is 1 (omega arith),
        multicast ip is,
        link_local ip is,
        unique_local ip is,
        mapped ip is,
      )
      (or_five (address_number6 ip) unspecified6 loopback6 multicast6 link_local6 unique_local6
        (map shift blocked_ipv4))

-- The ranges of an address, whichever its kind.
abbrev pub IsIpAddr : IpAddr → Type 0
IsIpAddr (v4 ip) = IsIpv4 ip
IsIpAddr (v6 ip) = IsIpv6 ip

abbrev pub in_blocked_range : IpAddr → Bool
in_blocked_range (v4 ip) = any (within (address_number ip)) blocked_ipv4
in_blocked_range (v6 ip) = any (within (address_number6 ip)) blocked_ipv6

-- The guard blocks an address exactly if it lies in a listed range: one of the nine IPv4 ranges,
-- one of the five IPv6 ranges, or the form of one of the nine as IPv4-mapped IPv6 addresses.
pub is_blocked_ip-ranges : (ip : IpAddr) → IsIpAddr ip → is_blocked_ip ip ≡ in_blocked_range ip
unfolding is_blocked_ip
is_blocked_ip-ranges (v4 ip) is = ipv4_ranges ip is
is_blocked_ip-ranges (v6 ip) is = ipv6_ranges ip is
