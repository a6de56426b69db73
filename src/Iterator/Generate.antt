-- ===== src/Iterator/Generate.antt =====
-- `Generate` of ipscanner/iterator/iterator.go: the addresses of all ranges. The parameters of the LCG
-- that each range carries, and with them the search for these, are left out: nothing draws from it.
use vwarp.Prelude.{
  ℕ, zero, suc, ◌-◌, ◌*◌, ◌/◌, ◌%◌, ◌^◌, Bool, true, false, ◌&&◌, ◌||◌, not, List, [], ◌∷◌, Option,
  none, some, ltb, leb, ◌==◌, if◌then◌else◌, length, set, get_or,
}
use vwarp.Iterator.{Addr, add_ip, ip_range_size, generate_ips_from_range, join}
use vwarp.Warp.Endpoint.{Prefix, prefix4}

-- `Prefix.Contains`.
unfoldable pub contains : Prefix → Addr → Bool
contains p a =
    let h = ip_range_size p.addr.is4 p.bits in
    if p.addr.is4
    then a.is4 && (a.value / h == p.addr.value / h)
    else not a.is4 && (a.value / h == p.addr.value / h)

-- `nextAddr.Compare(current) > 0`: the IPv4 addresses come first.
unfoldable pub after : Addr → Addr → Bool
after next current =
    if current.is4
    then not next.is4 || ltb current.value next.value
    else not next.is4 && ltb current.value next.value

-- What the loop does with the next block; `none` is a panic of `addIP`.
unfoldable pub next_block : Option Addr → Addr → Option (Option Addr)
next_block none current = none
next_block (some next) current = some (if after next current then some next else none)

-- The loop over the /24 blocks of an IPv4 range, on fuel; `draws` has the numbers for each block. The
-- outer `none` stands for a panic, and for fuel that is too small.
unfoldable pub blocks : ℕ → Prefix → Addr → ℕ → (ℕ → ℕ → ℕ → ℕ) → Option (List Addr)
blocks zero p current count draws = none
blocks (suc fuel) p current count draws = elim (contains p current) [
  | false ↦ some []
  | true ↦
      join (generate_ips_from_range current (ip_range_size current.is4 24) count (draws 0))
        (elim (next_block (add_ip current (ip_range_size p.addr.is4 24)) current) [
          | none ↦ none
          | some none ↦ some []
          | some (some next) ↦ blocks fuel p next count (λ n. draws (suc n))
        ])
]

-- The random numbers of `Generate`: the place of each sampled block, and those of each block.
pub record Draws : Type 0 where
  pub index : ℕ → ℕ
  pub offset : ℕ → ℕ → ℕ → ℕ

-- A sampled block of an IPv6 range.
unfoldable pub sampled : Option Addr → ℕ → (ℕ → ℕ → ℕ) → Option (List Addr)
sampled none count draws = none
sampled (some start) count draws =
    generate_ips_from_range start (ip_range_size start.is4 120) count draws

-- The loop over `left` samples of blocks of 256 addresses.
unfoldable pub samples : ℕ → Prefix → ℕ → Draws → Option (List Addr)
samples zero p count draws = some []
samples (suc left) p count draws =
    join
      (sampled (add_ip p.addr (draws.index left % 2 ^ (120 - p.bits) * 2 ^ 8)) count
        (draws.offset left))
      (samples left p count draws)

-- `sampleSubnetsCount`.
abbrev pub sample_subnets_count : ℕ
sample_subnets_count = 100

-- The addresses of one range.
unfoldable pub range_ips : Prefix → ℕ → Draws → Option (List Addr)
range_ips p count draws =
    let size = ip_range_size p.addr.is4 p.bits in
    if p.addr.is4
    then (if leb 24 p.bits
        then generate_ips_from_range p.addr size count (draws.offset 0)
        else blocks (suc (2 ^ (24 - p.bits))) p p.addr count draws.offset)
    else if leb 120 p.bits
    then generate_ips_from_range p.addr size count (draws.offset 0)
    else samples sample_subnets_count p count draws

-- `Generate`; an empty list is its error.
unfoldable pub generate : List Prefix → ℕ → (ℕ → Draws) → Option (List Addr)
generate [] count draws = some []
generate (p ∷ ranges) count draws =
    join (range_ips p count (draws 0)) (generate ranges count (λ n. draws (suc n)))

-- The ranges of the families that are enabled.
unfoldable pub ip_ranges : Bool → Bool → List Prefix → List Prefix
ip_ranges use_ipv4 use_ipv6 [] = []
ip_ranges use_ipv4 use_ipv6 (p ∷ cidrs) =
    let rest = ip_ranges use_ipv4 use_ipv6 cidrs in
    if not use_ipv6 && not p.addr.is4
    then rest
    else if not use_ipv4 && p.addr.is4
    then rest
    else p ∷ rest

-- The loop of `shuffleSubnetsIpRange` from place `i` on, with `left` places to go.
unfoldable pub shuffle : ℕ → ℕ → (ℕ → ℕ) → List Prefix → List Prefix
shuffle zero i draws subnets = subnets
shuffle (suc left) i draws subnets =
    let j = draws i % length subnets in
    let first = get_or subnets i (prefix4 0 0 0 0 0) in
    let second = get_or subnets j (prefix4 0 0 0 0 0) in
    shuffle left (suc i) draws (set (set subnets i second) j first)

-- `NewIterator`.
unfoldable pub new_iterator : Bool → Bool → List Prefix → (ℕ → ℕ) → List Prefix
new_iterator use_ipv4 use_ipv6 cidrs draws =
    let ranges = ip_ranges use_ipv4 use_ipv6 cidrs in
    if ltb 1 (length ranges) then shuffle (length ranges) 0 draws ranges else ranges
