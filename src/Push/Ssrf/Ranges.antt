-- ===== src/Push/Ssrf/Ranges.antt =====
-- The blocked addresses as ranges of numbers (crates/turul-a2a/src/push/ssrf.rs).
use turul_a2a.Prelude.{
  ℕ, ◌≡◌, ◌+◌, ◌-◌, ◌/◌, ◌==◌, ◌*◌, ◌^◌, ◌<◌, Bool, List, [], ◌∷◌, any, leb, ◌&&◌, ◌||◌, arith,
}
use turul_a2a.Push.Ssrf.{Ipv4, is_blocked_ipv4}

-- The address as one number of 32 bits.
abbrev pub address_number : Ipv4 → ℕ
address_number ip = ip.a * 2 ^ 24 + ip.b * 2 ^ 16 + ip.c * 2 ^ 8 + ip.d

-- A range of addresses: its first and its last.
pub record Range : Type 0 where
  pub first : ℕ
  pub last : ℕ

-- The addresses that begin with the bits of `base`, a multiple of 2 ^ free.
abbrev pub block_of : ℕ → ℕ → Range
block_of base size = record { first = base; last = base + size }

abbrev pub within : ℕ → Range → Bool
within n r = leb r.first n && leb n r.last

-- An address whose parts are octets.
pub record IsIpv4 (ip : Ipv4) : Type 0 where
  pub a : ip.a < 256
  pub b : ip.b < 256
  pub c : ip.c < 256
  pub d : ip.d < 256

abbrev pub unspecified4 : Range  -- 0.0.0.0
unspecified4 = block_of 0 0

abbrev pub broadcast : Range  -- 255.255.255.255
broadcast = block_of (2 ^ 32 - 1) 0

abbrev pub loopback4 : Range  -- 127.0.0.0/8
loopback4 = block_of (127 * 2 ^ 24) (2 ^ 24 - 1)

abbrev pub link_local4 : Range  -- 169.254.0.0/16
link_local4 = block_of (169 * 2 ^ 24 + 254 * 2 ^ 16) (2 ^ 16 - 1)

abbrev pub private10 : Range  -- 10.0.0.0/8
private10 = block_of (10 * 2 ^ 24) (2 ^ 24 - 1)

abbrev pub private172 : Range  -- 172.16.0.0/12
private172 = block_of (172 * 2 ^ 24 + 16 * 2 ^ 16) (2 ^ 20 - 1)

abbrev pub private192 : Range  -- 192.168.0.0/16
private192 = block_of (192 * 2 ^ 24 + 168 * 2 ^ 16) (2 ^ 16 - 1)

abbrev pub multicast4 : Range  -- 224.0.0.0/4
multicast4 = block_of (224 * 2 ^ 24) (2 ^ 28 - 1)

abbrev pub shared : Range  -- 100.64.0.0/10
shared = block_of (100 * 2 ^ 24 + 64 * 2 ^ 16) (2 ^ 22 - 1)

abbrev pub blocked_ipv4 : List Range
blocked_ipv4 =
    unspecified4 ∷ broadcast ∷ loopback4 ∷ link_local4 ∷ private10 ∷ private172 ∷ private192
    ∷ multicast4 ∷ shared ∷ []

or_any :
    (n : ℕ) (a b c d e f g h i : Range)
    → (within n a
        || (within n b
            || (within n c
                || (within n d
                    || ((within n e || (within n f || within n g))
                        || (within n h || within n i))))))
      ≡ any (within n) (a ∷ b ∷ c ∷ d ∷ e ∷ f ∷ g ∷ h ∷ i ∷ [])
or_any n a b c d e f g h i = ground arith

module _ (ip : Ipv4) (is : IsIpv4 ip) where
  unspecified4_lem :
      ((ip.a == 0) && ((ip.b == 0) && ((ip.c == 0) && (ip.d == 0))))
      ≡ within (address_number ip) unspecified4
  unspecified4_lem = ground (arith, is.a, is.b, is.c, is.d)

  broadcast_lem :
      ((ip.a == 255) && ((ip.b == 255) && ((ip.c == 255) && (ip.d == 255))))
      ≡ within (address_number ip) broadcast
  broadcast_lem = ground (arith, is.a, is.b, is.c, is.d)

  loopback4_lem : (ip.a == 127) ≡ within (address_number ip) loopback4
  loopback4_lem = ground (arith, is.a, is.b, is.c, is.d)

  link_local4_lem : ((ip.a == 169) && (ip.b == 254)) ≡ within (address_number ip) link_local4
  link_local4_lem = ground (arith, is.a, is.b, is.c, is.d)

  private10_lem : (ip.a == 10) ≡ within (address_number ip) private10
  private10_lem = ground (arith, is.a, is.b, is.c, is.d)

  private172_lem :
      ((ip.a == 172) && (leb 16 ip.b && leb ip.b 31)) ≡ within (address_number ip) private172
  private172_lem = ground (arith, is.a, is.b, is.c, is.d)

  private192_lem : ((ip.a == 192) && (ip.b == 168)) ≡ within (address_number ip) private192
  private192_lem = ground (arith, is.a, is.b, is.c, is.d)

  multicast4_lem : (leb 224 ip.a && leb ip.a 239) ≡ within (address_number ip) multicast4
  multicast4_lem = ground (arith, is.a, is.b, is.c, is.d)

  shared_lem : ((ip.a == 100) && (ip.b / 2 ^ 6 * 2 ^ 6 == 64)) ≡ within (address_number ip) shared
  shared_lem = ground (arith, is.a, is.b, is.c, is.d)

  pub ipv4_ranges : is_blocked_ipv4 ip ≡ any (within (address_number ip)) blocked_ipv4
  unfolding is_blocked_ipv4
  ipv4_ranges =
      rw
        (
          unspecified4_lem, broadcast_lem, loopback4_lem, link_local4_lem, private10_lem,
          private172_lem, private192_lem, multicast4_lem, shared_lem,
        )
        (or_any (address_number ip) unspecified4 broadcast loopback4 link_local4 private10
          private172 private192 multicast4 shared)
