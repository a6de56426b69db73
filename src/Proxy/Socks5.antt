-- ===== src/Proxy/Socks5.antt =====
-- proxy/pkg/socks5/common.go: the bytes of the SOCKS5 protocol. The server is in Socks5/Server.antt.
pub mod Server
pub mod Codec
pub mod Relay
mod Examples
use vwarp.Prelude.{
  ℕ, ◌%◌, ◌^◌, List, [], ◌∷◌, ◌++◌, Option, none, some, length, ltb, ◌==◌, if◌then◌else◌,
}
use vwarp.Prelude.Int.{ℤ, pos, negsuc}
use vwarp.Text.{codes, contains}
use vwarp.Text.Decimal.{itoa, atoi}
use vwarp.Text.HostPort.{join_host_port, split_host_port}
use vwarp.Wire.{
  Io, Error, unrecognized_addr_type, string_too_long, bad_host_port, pure, raise, read_byte,
  read_full, write, ◌>>=◌, ◌>>◌,
}
use vwarp.Proxy.{Address}
use vwarp.Proxy.Ip.{to4, to16, put_uint16, uint16}

abbrev pub socks5_version : ℕ
socks5_version = 0x05

abbrev pub connect_command : ℕ
connect_command = 0x01

abbrev pub associate_command : ℕ
associate_command = 0x03

abbrev pub success_reply : ℕ
success_reply = 0x00

abbrev pub network_unreachable : ℕ
network_unreachable = 0x03

abbrev pub host_unreachable : ℕ
host_unreachable = 0x04

abbrev pub connection_refused : ℕ
connection_refused = 0x05

abbrev pub command_not_supported : ℕ
command_not_supported = 0x07

abbrev pub addr_type_not_supported : ℕ
addr_type_not_supported = 0x08

-- `errToReply`, of an error's text.
unfoldable pub err_to_reply : Option (List ℕ) → ℕ
err_to_reply none = success_reply
err_to_reply (some msg) =
    if contains msg (codes "refused")
    then connection_refused
    else if contains msg (codes "network is unreachable")
    then network_unreachable
    else host_unreachable

abbrev pub ipv4_address : ℕ
ipv4_address = 0x01

abbrev pub fqdn_address : ℕ
fqdn_address = 0x03

abbrev pub ipv6_address : ℕ
ipv6_address = 0x04

abbrev pub no_auth : ℕ
no_auth = 0x00

abbrev pub no_acceptable : ℕ
no_acceptable = 0xff

unfoldable pub read_bytes : Io (List ℕ)
read_bytes = do n ← read_byte; read_full n

-- The tail of `readAddr`, behind its switch.
read_port : List ℕ → Option (List ℕ) → Io Address
read_port name ip = do
  port ← read_full 2
  pure (record { name = name; ip = ip; port = uint16 port })

read_ip : ℕ → Io Address
read_ip n = do addr ← read_full n; read_port [] (some addr)

read_fqdn : Io Address
read_fqdn = do addr_len ← read_byte; fqdn ← read_full addr_len; read_port fqdn none

read_addr_type : ℕ → Io Address
read_addr_type t =
    if t == ipv4_address
    then read_ip 4
    else if t == ipv6_address
    then read_ip 16
    else if t == fqdn_address
    then read_fqdn
    else raise unrecognized_addr_type

unfoldable pub read_addr : Io Address
unfolding read_addr_type read_ip read_fqdn read_port
read_addr = do t ← read_byte; read_addr_type t

write_port : ℕ → Io (Unit {0})
write_port port = write (put_uint16 (port % 2 ^ 16))

write_ip16 : Option (List ℕ) → Io (Unit {0})
write_ip16 (some ip6) = do write (ipv6_address ∷ []); write ip6
write_ip16 none = write (ipv4_address ∷ 0 ∷ 0 ∷ 0 ∷ 0 ∷ [])

write_ip : Option (List ℕ) → List ℕ → Io (Unit {0})
write_ip (some ip4) ip = do write (ipv4_address ∷ []); write ip4
write_ip none ip = write_ip16 (to16 ip)

write_host : Option (List ℕ) → List ℕ → Io (Unit {0})
write_host (some ip) name = write_ip (to4 ip) ip
write_host none [] = write (ipv4_address ∷ 0 ∷ 0 ∷ 0 ∷ 0 ∷ [])
write_host none (c ∷ name) =
    if ltb 255 (length (c ∷ name))
    then raise string_too_long
    else do write (fqdn_address ∷ (length (c ∷ name) % 256) ∷ []); write (c ∷ name)

-- `none` is a nil address.
unfoldable pub write_addr : Option Address → Io (Unit {0})
unfolding write_host write_ip write_ip16 write_port
write_addr none = write (ipv4_address ∷ 0 ∷ 0 ∷ 0 ∷ 0 ∷ 0 ∷ 0 ∷ [])
write_addr (some a) = do write_host a.ip a.name; write_port a.port

unfoldable pub send_reply : ℕ → Option Address → Io (Unit {0})
send_reply resp addr = do write (socks5_version ∷ resp ∷ 0 ∷ []); write_addr addr

-- `splitHostPort`: the port has to be a number up to 65535.
port_in_range : List ℕ → Option ℤ → Io (List ℕ × ℕ)
port_in_range host none = raise bad_host_port
port_in_range host (some (negsuc n)) = raise bad_host_port
port_in_range host (some (pos n)) = if ltb 0xffff n then raise bad_host_port else pure (host, n)

split_parts : Option (List ℕ × List ℕ) → Io (List ℕ × ℕ)
split_parts none = raise bad_host_port
split_parts (some (host, port)) = port_in_range host (atoi port)

unfoldable pub split_host_port_num : List ℕ → Io (List ℕ × ℕ)
unfolding split_parts port_in_range
split_host_port_num address = split_parts (split_host_port address)

-- `net.IP.String`, which prints the nil IP as `<nil>`; `ip_string` is Go's form of any other.
module _ (ip_string : List ℕ → List ℕ) where
  unfoldable pub ip_text : Option (List ℕ) → List ℕ
  ip_text none = codes "<nil>"
  ip_text (some []) = codes "<nil>"
  ip_text (some (b ∷ bs)) = ip_string (b ∷ bs)

  -- `address.Address`, which is `String` too where the address is not nil.
  unfoldable pub address_text : Address → List ℕ
  address_text a = elim a.ip [
    | none ↦ join_host_port a.name (itoa a.port)
    | some ip ↦ elim ip [
      | [] ↦ join_host_port a.name (itoa a.port)
      | b ∷ bs ↦ join_host_port (ip_string (b ∷ bs)) (itoa a.port)
    ]
  ]

-- `writeAddrWithStr`; `parse_ip` is Go's `net.ParseIP`.
module _ (parse_ip : List ℕ → Option (List ℕ)) where
  unfoldable pub write_addr_with_str : List ℕ → Io (Unit {0})
  write_addr_with_str addr = do
    (host, port) ← split_host_port_num addr
    elim (parse_ip host) [
      | some ip ↦ write_addr (some (record { name = []; ip = some ip; port = port }))
      | none ↦ write_addr (some (record { name = host; ip = none; port = port }))
    ]
