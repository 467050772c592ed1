-- ===== src/Push/Ssrf/Choice.antt =====
-- Which address the worker connects to (crates/turul-a2a/src/push/ssrf.rs).
use turul_a2a.Prelude.{
  ◌≡◌, ◌≢◌, refl, true, false, none, some, List, [], ◌∷◌, ◌++◌, ◌⊎◌, inl, inr, All, arith,
  Bool-cases, ap,
}
use turul_a2a.Push.Ssrf.{
  IpAddr, is_blocked_ip, allow, block, private_ip, dns_resolution_failed, first_allowed,
  pick_destination,
}

-- `ip` is the first address of the answer that is not blocked.
pub record IsFirst (ips : List IpAddr) (ip : IpAddr) : Type 0 where
  pub before : List IpAddr
  pub after : List IpAddr
  pub splits : ips ≡ before ++ ip ∷ after
  pub open_to : is_blocked_ip ip ≡ false
  pub passed : All (λ j. is_blocked_ip j ≡ true) before

abbrev pub AllBlocked : List IpAddr → Type 0
AllBlocked ips = All (λ j. is_blocked_ip j ≡ true) ips

first_allowed-cases :
    (ips : List IpAddr)
    → ((first_allowed ips false ≡ none) × AllBlocked ips)
      ⊎ ((ip : IpAddr) × (first_allowed ips false ≡ some ip) × IsFirst ips ip)
unfolding first_allowed
first_allowed-cases [] = inl (refl, tt)
first_allowed-cases (x ∷ ips) = elim (Bool-cases (is_blocked_ip x)) [
  | inr open_to ↦ inr (
    x,
    rw open_to refl,
    record { before = []; after = ips; splits = refl; open_to = open_to; passed = tt },
  )
  | inl blocked ↦ elim (first_allowed-cases ips) [
    | inl (e, all) ↦ inl (rw blocked e, (blocked, all))
    | inr (ip, e, first) ↦ inr (
      ip,
      rw blocked e,
      record {
        before = x ∷ first.before;
        after = first.after;
        splits = ap (λ l. x ∷ l) first.splits;
        open_to = first.open_to;
        passed = (blocked, first.passed);
      },
    )
  ]
]

-- In production, the worker is sent to the first address of the DNS answer that is not blocked, if
-- there is one; an answer whose addresses are all blocked is refused as private, and an empty
-- answer as a failed resolution.
pub pick_destination_lem :
    (ips : List IpAddr)
    → ((ip : IpAddr) × (pick_destination ips false ≡ allow ip) × IsFirst ips ip)
      ⊎ ((pick_destination ips false ≡ block private_ip) × (ips ≢ []) × AllBlocked ips)
      ⊎ ((pick_destination ips false ≡ block dns_resolution_failed) × (ips ≡ []))
unfolding pick_destination
pick_destination_lem [] = inr (inr (refl, refl))
pick_destination_lem (x ∷ ips) = elim (first_allowed-cases (x ∷ ips)) [
  | inl (e, all) ↦ inr (inl (rw (e, pick_destination) refl, ground arith, all))
  | inr (ip, e, first) ↦ inl (ip, rw (e, pick_destination) refl, first)
]
