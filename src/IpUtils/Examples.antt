-- ===== src/IpUtils/Examples.antt =====
-- IpUtils at 162.159.192.7/24, and at some endpoints.
use vwarp.Prelude.{ℕ, ◌≡◌, refl, true, false, List, [], ◌∷◌, Option, none, some}
use vwarp.Text.{codes, text_eq}
use vwarp.Iterator.{Addr}
use vwarp.IpUtils.{random_ip_from_prefix, parse_resolve_address_port}

abbrev no_literal : List ℕ → Option Addr
no_literal = λ s. none

abbrev two_addresses : List ℕ → Option (List (Option Addr))
two_addresses = λ s.
    some (some (record { is4 = false; value = 1 }) ∷ some (record { is4 = true; value = 5 }) ∷ [])

-- The IPv6 address that comes first is passed over, unless it is wanted.
ipv4_wanted :
    parse_resolve_address_port no_literal two_addresses (codes "host:80") false
    ≡ some (record { is4 = true; value = 5 }, 80)
unfolding parse_resolve_address_port vwarp.Text.HostPort.split_host_port
    vwarp.Text.Bytes.last_index_byte vwarp.Text.Decimal.atoi vwarp.IpUtils.in_port_range
    vwarp.IpUtils.resolved vwarp.IpUtils.first_usable vwarp.Iterator.unmap vwarp.Iterator.as16
ipv4_wanted = refl

any_wanted :
    parse_resolve_address_port no_literal two_addresses (codes "host:80") true
    ≡ some (record { is4 = false; value = 1 }, 80)
unfolding parse_resolve_address_port vwarp.Text.HostPort.split_host_port
    vwarp.Text.Bytes.last_index_byte vwarp.Text.Decimal.atoi vwarp.IpUtils.in_port_range
    vwarp.IpUtils.resolved vwarp.IpUtils.first_usable vwarp.Iterator.unmap vwarp.Iterator.as16
any_wanted = refl

port_zero : parse_resolve_address_port no_literal two_addresses (codes "host:0") true ≡ none
unfolding parse_resolve_address_port vwarp.Text.HostPort.split_host_port
    vwarp.Text.Bytes.last_index_byte vwarp.Text.Decimal.atoi vwarp.IpUtils.in_port_range
port_zero = refl
