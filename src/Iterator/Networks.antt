-- ===== src/Iterator/Networks.antt =====
-- The addresses that `Generate` of ipscanner/iterator/iterator.go gives for a list of IPv4 networks.
use vwarp.Prelude.{
  ℕ, zero, suc, ◌+◌, ◌-◌, ◌*◌, ◌^◌, ◌≤◌, ◌<◌, ◌≡◌, ◌∙◌, refl, ap, inl, inr, Bool-cases, List, [],
  ◌∷◌, ◌++◌, some, arith, length, leb,
}
use vwarp.Iterator.{Addr, ip_range_size, generate_ips_from_range}
use vwarp.Iterator.Range.{Endpoints, Picked, generate_ips_from_range-Endpoints}
use vwarp.Iterator.Generate.{blocks, range_ips, generate, Draws}
use vwarp.Iterator.Blocks.{v4, blocks-Picked}
use vwarp.IpUtils.Network.{two_pow-add}
use vwarp.Warp.Endpoint.{Prefix}

abbrev pub size_of : ℕ → ℕ
size_of bits = 2 ^ (32 - bits)

-- Number `m` of the IPv4 networks whose prefix has so many bits.
abbrev pub network : ℕ → ℕ → Prefix
network m bits = record { addr = v4 (m * size_of bits); bits = bits }

one-le-two_pow : (n : ℕ) → 1 ≤ 2 ^ n
one-le-two_pow zero = omega arith
one-le-two_pow (suc n) = omega (arith, one-le-two_pow n)

large_range :
    (m bits count : ℕ) (draws : ℕ → ℕ → ℕ → ℕ)
    → bits < 24
    → m * size_of bits + size_of bits ≤ 2 ^ 32
    → Picked
        (m * size_of bits)
        (m * size_of bits + size_of bits)
        (2 ^ (24 - bits) * count)
        (blocks (suc (2 ^ (24 - bits))) (network m bits) (v4 (m * size_of bits)) count draws)
large_range m bits count draws small top =
    let parts : 32 - bits ≡ 24 - bits + 8 = omega arith in
    let split : size_of bits ≡ 2 ^ (24 - bits) * 256 =
      ap (λ n. 2 ^ n) parts ∙ two_pow-add (24 - bits) 8 in
    let some_block = one-le-two_pow (24 - bits) in
    let same : suc (2 ^ (24 - bits) - 1) ≡ 2 ^ (24 - bits) = omega arith in
    let start : m * size_of bits + 0 ≡ m * size_of bits = omega arith in
    rw start at (
      rw same at (
        blocks-Picked bits m (size_of bits) (unfold ip_range_size in refl) (omega arith)
          (2 ^ (24 - bits) - 1) (2 ^ (24 - bits)) 0 count draws (omega arith) top (omega arith)))

small_range :
    (m bits count : ℕ) (draws : ℕ → ℕ → ℕ)
    → 24 ≤ bits
    → m * size_of bits + size_of bits ≤ 2 ^ 32
    → Picked
        (m * size_of bits)
        (m * size_of bits + size_of bits)
        (2 ^ (24 - bits) * count)
        (generate_ips_from_range (v4 (m * size_of bits)) (size_of bits) count draws)
unfolding Picked
small_range m bits count draws small top =
    let (ips, made, all, few) =
      generate_ips_from_range-Endpoints (m * size_of bits) (size_of bits) count draws top in
    let none_more : 24 - bits ≡ 0 = omega arith in
    let one : 2 ^ (24 - bits) ≡ 1 = ap (λ n. 2 ^ n) none_more in
    (ips, made, all, rw one (omega arith))

range_ips-Picked :
    (m bits count : ℕ) (draws : Draws)
    → m * size_of bits + size_of bits ≤ 2 ^ 32
    → Picked
        (m * size_of bits)
        (m * size_of bits + size_of bits)
        (2 ^ (24 - bits) * count)
        (range_ips (network m bits) count draws)
unfolding range_ips ip_range_size
range_ips-Picked m bits count draws top = elim (Bool-cases (leb 24 bits)) [
  | inl e ↦ rw e (small_range m bits count (draws.offset 0) (ground arith) top)
  | inr e ↦ rw e (large_range m bits count draws.offset (ground arith) top)
]

-- Networks of IPv4 addresses, by their number and the length of their prefix.
abbrev pub AllNetworks : List (ℕ × ℕ) → Type 0
AllNetworks [] = Unit
AllNetworks ((m, bits) ∷ nets) = (m * size_of bits + size_of bits ≤ 2 ^ 32) × AllNetworks nets

abbrev pub prefixes_of : List (ℕ × ℕ) → List Prefix
prefixes_of [] = []
prefixes_of ((m, bits) ∷ nets) = network m bits ∷ prefixes_of nets

-- The addresses of one network after the other: in each one endpoints in strictly ascending order, at
-- most `count` for each of its blocks of 256 addresses.
abbrev pub Sampled : ℕ → List (ℕ × ℕ) → List Addr → Type 0
Sampled count [] ips = ips ≡ []
Sampled count ((m, bits) ∷ nets) ips =
    (xs : List Addr) × (ys : List Addr) × (ips ≡ xs ++ ys)
    × Endpoints (m * size_of bits) (m * size_of bits + size_of bits) xs
    × (length xs ≤ 2 ^ (24 - bits) * count)
    × Sampled count nets ys

-- For IPv4 networks without host bits and a bucket size, whatever is drawn: `Generate` ends without a
-- panic, and gives, one network after the other, IPv4 addresses of the network in strictly ascending
-- order, none ending in 0 or 255, at most as many as the bucket size for each block of 256 addresses.
pub generate-Sampled :
    (nets : List (ℕ × ℕ)) (count : ℕ) (draws : ℕ → Draws)
    → AllNetworks nets
    → (ips : List Addr) × (generate (prefixes_of nets) count draws ≡ some ips)
      × Sampled count nets ips
unfolding generate Picked
generate-Sampled [] count draws h = ([], refl, refl)
generate-Sampled ((m, bits) ∷ nets) count draws (fits, h) =
    let (xs, made, all, few) = range_ips-Picked m bits count (draws 0) fits in
    let (ys, later, rest) = generate-Sampled nets count (λ n. draws (suc n)) h in
    (xs ++ ys, rw (made, later) refl, (xs, ys, refl, all, few, rest))
