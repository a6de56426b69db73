-- ===== src/Warp/Endpoint.antt =====
-- warp/endpoint.go: a random endpoint of WARP. Random numbers are parameters.
use vwarp.Prelude.{
  ℕ, zero, suc, ◌+◌, ◌*◌, ◌/◌, ◌%◌, ◌^◌, ◌≤◌, ◌<◌, ◌≡◌, refl, sym, ◌⊎◌, inl, inr, Bool, true, false,
  ◌&&◌, ◌||◌, not, List, [], ◌∷◌, Option, none, some, length, get_or, if◌then◌else◌, arith, ◌>>=◌,
  ltb, ltb→lt, Bool-cases,
}
use mathlib.Core.Path.{subst}
use native.Mathlib.Nat.{mod-lt}
use vwarp.Text.Bytes.{has_byte}
use vwarp.Iterator.{Addr}
use vwarp.IpUtils.{random_ip_from_prefix}
use vwarp.IpUtils.Network.{random_ip_from_prefix-Network}

pub record Prefix : Type 0 where
  pub addr : Addr
  pub bits : ℕ

abbrev pub prefix4 : ℕ → ℕ → ℕ → ℕ → ℕ → Prefix
prefix4 a b c d bits = record {
  addr = record { is4 = true; value = ((a * 256 + b) * 256 + c) * 256 + d };
  bits = bits;
}

-- A prefix whose address has the first three groups of sixteen bits.
abbrev pub prefix6 : ℕ → ℕ → ℕ → ℕ → Prefix
prefix6 a b c bits = record {
  addr = record { is4 = false; value = ((a * 2 ^ 16 + b) * 2 ^ 16 + c) * 2 ^ 80 };
  bits = bits;
}

abbrev pub warp_prefixes : List Prefix
warp_prefixes =
    prefix4 162 159 192 0 24
    ∷ prefix4 162 159 195 0 24
    ∷ prefix4 188 114 96 0 24
    ∷ prefix4 188 114 97 0 24
    ∷ prefix4 188 114 98 0 24
    ∷ prefix4 188 114 99 0 24
    ∷ prefix6 0x2606 0x4700 0xd0 64
    ∷ prefix6 0x2606 0x4700 0xd1 64
    ∷ []

abbrev pub warp_ports : List ℕ
warp_ports =
    500 ∷ 854 ∷ 859 ∷ 864 ∷ 878 ∷ 880 ∷ 890 ∷ 891 ∷ 894 ∷ 903 ∷ 908 ∷ 928 ∷ 934 ∷ 939 ∷ 942 ∷ 943
    ∷ 945 ∷ 946 ∷ 955 ∷ 968 ∷ 987 ∷ 988 ∷ 1002 ∷ 1010 ∷ 1014 ∷ 1018 ∷ 1070 ∷ 1074 ∷ 1180 ∷ 1387
    ∷ 1701 ∷ 1843 ∷ 2371 ∷ 2408 ∷ 2506 ∷ 3138 ∷ 3476 ∷ 3581 ∷ 3854 ∷ 4177 ∷ 4198 ∷ 4233 ∷ 4500
    ∷ 5279 ∷ 5956 ∷ 7103 ∷ 7152 ∷ 7156 ∷ 7281 ∷ 7559 ∷ 8319 ∷ 8742 ∷ 8854 ∷ 8886 ∷ []

unfoldable pub suits : Bool → Bool → Prefix → Bool
suits v4 v6 p = (v4 && p.addr.is4) || (v6 && not p.addr.is4)

-- The loop of `RandomWarpPrefix`, on the numbers that are drawn; `none` where they end before one suits.
unfoldable pub pick : Bool → Bool → List ℕ → Option Prefix
unfolding suits
pick v4 v6 [] = none
pick v4 v6 (draw ∷ draws) =
    let p = get_or warp_prefixes (draw % 8) (prefix4 162 159 192 0 24) in
    let later = pick v4 v6 draws in if suits v4 v6 p then some p else later

-- `RandomWarpPrefix`; its panic where no version is chosen is `none` too, and needs no numbers.
unfoldable pub random_warp_prefix : Bool → Bool → List ℕ → Option Prefix
random_warp_prefix false false draws = none
random_warp_prefix v4 v6 draws = pick v4 v6 draws

unfoldable pub random_warp_port : ℕ → ℕ
random_warp_port draw = get_or warp_ports (draw % 54) 0

-- `RandomWarpEndpoint`, with the number for the address and the one for the port.
unfoldable pub random_warp_endpoint : Bool → Bool → List ℕ → ℕ → ℕ → Option (Addr × ℕ)
random_warp_endpoint v4 v6 draws ip_draw port_draw = do
  prefix ← random_warp_prefix v4 v6 draws
  addr ← random_ip_from_prefix prefix.addr (some prefix.bits) ip_draw
  some (addr, random_warp_port port_draw)

-- The first three bytes of an address in one of the six IPv4 prefixes.
unfoldable pub IsWarpNetwork : ℕ → Type 0
IsWarpNetwork n = (n ≡ 10657728) ⊎ ((n ≡ 10657731) ⊎ ((12350048 ≤ n) × (n ≤ 12350051)))

-- Whether one of the numbers hits an IPv4 prefix.
unfoldable pub any_ipv4 : List ℕ → Bool
any_ipv4 [] = false
any_ipv4 (draw ∷ draws) = ltb (draw % 8) 6 || any_ipv4 draws

abbrev of_value : ℕ → Prefix
of_value v = record { addr = record { is4 = true; value = v }; bits = 24 }

abbrev entry : ℕ → Prefix
entry i = get_or warp_prefixes i (prefix4 162 159 192 0 24)

IsEntry : Prefix → Type 0
IsEntry p = (v : ℕ) × (p ≡ of_value v) × (v < 2 ^ 32) × IsWarpNetwork (v / 256)

entry-low : (i : ℕ) → i < 6 → IsEntry (entry i)
unfolding IsEntry IsWarpNetwork
entry-low zero h = (_, refl, omega arith, inl refl)
entry-low (suc zero) h = (_, refl, omega arith, inr (inl refl))
entry-low (suc (suc zero)) h = (_, refl, omega arith, inr (inr (omega arith, omega arith)))
entry-low (suc (suc (suc zero))) h = (_, refl, omega arith, inr (inr (omega arith, omega arith)))
entry-low (suc (suc (suc (suc zero)))) h =
    (_, refl, omega arith, inr (inr (omega arith, omega arith)))
entry-low (suc (suc (suc (suc (suc zero))))) h =
    (_, refl, omega arith, inr (inr (omega arith, omega arith)))
entry-low (suc (suc (suc (suc (suc (suc i)))))) h = absurd (omega arith)

suits-low : (p : Prefix) → IsEntry p → suits true false p ≡ true
unfolding suits IsEntry
suits-low p (v, e, low, network) = rw e refl

suits-high : (i : ℕ) → 6 ≤ i → i < 8 → suits true false (entry i) ≡ false
unfolding suits
suits-high (suc (suc (suc (suc (suc (suc zero)))))) h k = refl
suits-high (suc (suc (suc (suc (suc (suc (suc zero))))))) h k = refl
suits-high (suc (suc (suc (suc (suc (suc (suc (suc i)))))))) h k = absurd (omega arith)
suits-high zero h k = absurd (omega arith)
suits-high (suc zero) h k = absurd (omega arith)
suits-high (suc (suc zero)) h k = absurd (omega arith)
suits-high (suc (suc (suc zero))) h k = absurd (omega arith)
suits-high (suc (suc (suc (suc zero)))) h k = absurd (omega arith)
suits-high (suc (suc (suc (suc (suc zero))))) h k = absurd (omega arith)

pick-IsEntry :
    (draws : List ℕ)
    → any_ipv4 draws ≡ true
    → (p : Prefix) × (pick true false draws ≡ some p) × IsEntry p
unfolding pick any_ipv4
pick-IsEntry [] h = cc
pick-IsEntry (draw ∷ draws) h = elim (Bool-cases (ltb (draw % 8) 6)) [
  | inl low ↦
      let found = entry-low (draw % 8) (ltb→lt _ _ low) in
      (entry (draw % 8), rw (suits-low (entry (draw % 8)) found) refl, found)
  | inr high ↦
      let (p, e, found) = pick-IsEntry draws (ground arith) in
      let bound : draw % 8 < 8 = mod-lt draw (omega arith) in
      let not_low : 6 ≤ draw % 8 = ground arith in
      (p, rw (suits-high (draw % 8) not_low bound) e, found)
]

has_byte-get_or : (xs : List ℕ) (i d : ℕ) → i < length xs → has_byte xs (get_or xs i d) ≡ true
has_byte-get_or [] i d h = absurd (omega arith)
has_byte-get_or (x ∷ xs) zero d h = ground arith
has_byte-get_or (x ∷ xs) (suc i) d h = ground (arith, has_byte-get_or xs i d)

-- If only IPv4 is chosen and one of the drawn numbers hits an IPv4 prefix, then for all further draws
-- there is an endpoint: an IPv4 address in one of the six WARP networks of 256 addresses, and one of the
-- WARP ports.
pub random_warp_endpoint-Network :
    (draws : List ℕ) (ip_draw port_draw : ℕ)
    → any_ipv4 draws ≡ true
    → (x port : ℕ) × (random_warp_endpoint true false draws ip_draw port_draw
        ≡ some (record { is4 = true; value = x }, port))
      × IsWarpNetwork (x / 256)
      × (has_byte warp_ports port ≡ true)
unfolding random_warp_endpoint random_warp_prefix random_warp_port IsEntry
random_warp_endpoint-Network draws ip_draw port_draw h =
    let (p, e, found) = pick-IsEntry draws h in
    let (v, is_v, bound, network) = found in
    let (x, drawn, low, same) = random_ip_from_prefix-Network v 24 ip_draw bound (omega arith) in
    (
      x,
      random_warp_port port_draw,
      rw (e, is_v, drawn) refl,
      subst IsWarpNetwork (sym same) network,
      has_byte-get_or warp_ports (port_draw % 54) 0 (mod-lt port_draw (omega arith)),
    )
