-- ===== src/IpUtils.antt =====
-- iputils/iputils.go: a random address of a prefix, and the endpoint that a text names. Resolving a
-- name and parsing an address are parameters.
pub mod Network
mod Examples
use vwarp.Prelude.{
  ℕ, zero, suc, ◌+◌, ◌-◌, ◌*◌, ◌/◌, ◌%◌, ◌^◌, ◌>>=◌, Bool, true, false, ◌&&◌, ◌||◌, not, List, [],
  ◌∷◌, Option, none, some, ltb, leb, if◌then◌else◌,
}
use vwarp.Prelude.Int.{ℤ, pos, negsuc}
use vwarp.Text.Decimal.{atoi}
use vwarp.Text.HostPort.{split_host_port}
use vwarp.Iterator.{Addr, mapped, as16, unmap}

-- `Is4In6`.
unfoldable pub is_4_in_6 : Addr → Bool
is_4_in_6 a = not a.is4 && (leb mapped a.value && ltb a.value (mapped + 2 ^ 32))

-- The number of addresses of a prefix, and `Masked`.
unfoldable pub host_count : Addr → ℕ → ℕ
host_count a bits = 2 ^ ((if a.is4 then 32 else 128) - bits)

unfoldable pub masked : Addr → ℕ → Addr
masked a bits = record a { value = a.value / host_count a bits * host_count a bits }

-- `RandomIPFromPrefix`, for the random number `draw`; `none` is an error. A prefix that is not valid
-- has no bits.
unfoldable pub random_ip_from_prefix : Addr → Option ℕ → ℕ → Option Addr
random_ip_from_prefix a none draw = none
random_ip_from_prefix a (some bits) draw =
    if is_4_in_6 (masked a bits)
    then none
    else some (unmap (as16 (masked a bits) + draw % host_count a bits))

-- The first address of a lookup that may be used; `none` among them is one of a wrong length.
unfoldable pub first_usable : Bool → List (Option Addr) → Option Addr
first_usable include_v6 [] = none
first_usable include_v6 (none ∷ ips) = first_usable include_v6 ips
first_usable include_v6 (some a ∷ ips) =
    let rest = first_usable include_v6 ips in
    let addr = unmap (as16 a) in if addr.is4 || include_v6 then some addr else rest

unfoldable pub resolved : Option Addr → Bool → Option (List (Option Addr)) → Option Addr
resolved (some a) include_v6 ips = some (unmap (as16 a))
resolved none include_v6 none = none
resolved none include_v6 (some ips) = first_usable include_v6 ips

unfoldable pub in_port_range : ℤ → Option ℕ
in_port_range (pos zero) = none
in_port_range (pos (suc n)) = if ltb 65535 (suc n) then none else some (suc n)
in_port_range (negsuc n) = none

-- `ParseResolveAddressPort`, with `netip.ParseAddr` and the lookup.
unfoldable pub parse_resolve_address_port :
    (List ℕ → Option Addr)
    → (List ℕ → Option (List (Option Addr)))
    → List ℕ
    → Bool
    → Option (Addr × ℕ)
parse_resolve_address_port parse_addr lookup_ip hostname include_v6 = do
  host_port ← split_host_port hostname
  number ← atoi host_port.1
  port ← in_port_range number
  addr ← resolved (parse_addr host_port.0) include_v6 (lookup_ip host_port.0)
  some (addr, port)
