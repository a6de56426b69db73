-- ===== src/Iterator.antt =====
-- ipscanner/iterator/iterator.go: the addresses that a scan tries. A `big.Int` is a number; crypto/rand
-- does not fail and its draws are arguments.
pub mod Range
pub mod Lcg
pub mod Generate
pub mod Blocks
pub mod Networks
mod Examples
use vwarp.Prelude.{
  ℕ, zero, suc, ◌+◌, ◌-◌, ◌*◌, ◌/◌, ◌%◌, ◌^◌, Bool, true, false, ◌&&◌, not, List, [], ◌∷◌, ◌++◌,
  Option, none, some, ltb, leb, ◌==◌, if◌then◌else◌,
}

-- `netip.Addr`: the family and the number; the zero `Addr` does not occur here.
pub record Addr : Type 0 where
  pub is4 : Bool
  pub value : ℕ

-- `As16`: an IPv4 address in its form ::ffff:a.b.c.d.
abbrev pub mapped : ℕ
mapped = 0xffff * 2 ^ 32

unfoldable pub as16 : Addr → ℕ
as16 a = if a.is4 then mapped + a.value else a.value

-- `Unmap`.
unfoldable pub unmap : ℕ → Addr
unmap v =
    if leb mapped v && ltb v (mapped + 2 ^ 32)
    then record { is4 = true; value = v - mapped }
    else record { is4 = false; value = v }

-- `addIP`; `none` is the panic of `FillBytes` at a number of more than 16 bytes.
unfoldable pub add_ip : Addr → ℕ → Option Addr
unfolding as16 unmap
add_ip ip num = let v = as16 ip + num in if ltb v (2 ^ 128) then some (unmap v) else none

-- `ipRangeSize`.
unfoldable pub ip_range_size : Bool → ℕ → ℕ
ip_range_size is4 bits = 2 ^ ((if is4 then 32 else 128) - bits)

-- `lastIP` on the number of an address: every bit below the prefix is set.
set_bits : ℕ → ℕ → ℕ
set_bits zero v = v
set_bits (suc i) v = let v' = set_bits i v in if v' / 2 ^ i % 2 == 0 then v' + 2 ^ i else v'

unfoldable pub last_ip : Addr → ℕ → Addr
unfolding set_bits
last_ip a bits = record a { value = set_bits ((if a.is4 then 32 else 128) - bits) a.value }

-- Whether a candidate can be an endpoint: an IPv4 address must not end in 0 or 255.
unfoldable pub is_endpoint : Addr → Bool
is_endpoint a = if a.is4 then not (a.value % 256 == 0) && not (a.value % 256 == 255) else true

-- One attempt, from its candidate and what the attempts behind it find.
abbrev attempt : Option Addr → Option (Option Addr) → Option (Option Addr)
attempt none rest = none
attempt (some a) rest = if is_endpoint a then some (some a) else rest

-- The attempts on one segment; the outer `none` is the panic of `addIP`, the inner that no attempt
-- found an endpoint.
unfoldable pub attempts : ℕ → Addr → ℕ → ℕ → (ℕ → ℕ) → Option (Option Addr)
attempts zero start seg_start seg_size draws = some none
attempts (suc left) start seg_start seg_size draws =
    attempt (add_ip start (seg_start + draws left % seg_size))
      (attempts left start seg_start seg_size draws)

-- `maxRetries`.
abbrev pub max_retries : ℕ
max_retries = 10

-- The addresses of one segment, from what its attempts found.
abbrev picked : Option (Option Addr) → Option (List Addr)
picked none = none
picked (some none) = some []
picked (some (some a)) = some (a ∷ [])

-- One round of the loop over the segments; `draws` are those of this segment.
unfoldable pub pick : Addr → ℕ → ℕ → (ℕ → ℕ) → Option (List Addr)
pick start seg_start seg_size draws =
    if seg_size == 0 then some [] else picked (attempts max_retries start seg_start seg_size draws)

abbrev pub join : Option (List Addr) → Option (List Addr) → Option (List Addr)
join none q = none
join (some xs) none = none
join (some xs) (some ys) = some (xs ++ ys)

-- The loop over the segments from number `i` on, `left + 1` of them; the last one takes the rest.
unfoldable pub segments : ℕ → ℕ → Addr → ℕ → ℕ → (ℕ → ℕ → ℕ) → Option (List Addr)
segments zero i start size seg_size draws =
    pick start (i * seg_size) (size - i * seg_size) (draws i)
segments (suc left) i start size seg_size draws =
    join (pick start (i * seg_size) seg_size (draws i))
      (segments left (suc i) start size seg_size draws)

-- `generateIPsFromRange`, for a bucket size that is not negative.
unfoldable pub generate_ips_from_range : Addr → ℕ → ℕ → (ℕ → ℕ → ℕ) → Option (List Addr)
generate_ips_from_range start size count draws =
    let n = (if ltb size count then size else count) in
    if n == 0 then some [] else segments (n - 1) 0 start size (size / n) draws
