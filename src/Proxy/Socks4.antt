-- ===== src/Proxy/Socks4.antt =====
-- proxy/pkg/socks4: the bytes of SOCKS4 and SOCKS4a (common.go), and `ServeConn` (server.go).
pub mod Session
mod Examples
use vwarp.Prelude.{
  ℕ, ◌%◌, ◌^◌, ◌-◌, Bool, List, [], ◌∷◌, ◌++◌, Option, none, some, length, ltb, ◌==◌, if◌then◌else◌,
}
use vwarp.Text.{codes, text_eq}
use vwarp.Text.Decimal.{itoa}
use vwarp.Text.HostPort.{join_host_port}
use vwarp.Wire.{
  Conn, Io, Result, ok, err, Error, eof, unsupported_version, unsupported_command, connect_failed,
  reply_failed, net_error, panicked, pure, raise, catch, closing, read_byte, read_full, write,
  ◌>>=◌, ◌>>◌,
}
use vwarp.Proxy.{Address, ProxyRequest, Handler}
use vwarp.Proxy.Ip.{to4, put_uint16, uint16}
use vwarp.Proxy.Tunnel.{NetError, Ending, tunnel}
use vwarp.Proxy.Socks5.{ip_text}

abbrev pub socks4_version : ℕ
socks4_version = 0x04

abbrev pub connect_command : ℕ
connect_command = 0x01

abbrev pub granted_reply : ℕ
granted_reply = 0x5a

abbrev pub rejected_reply : ℕ
rejected_reply = 0x5b

-- The IP that announces a host name.
abbrev pub is_socks4a : List ℕ
is_socks4a = 0 ∷ 0 ∷ 0 ∷ 1 ∷ []

abbrev pub is_none : List ℕ
is_none = 0 ∷ 0 ∷ 0 ∷ 0 ∷ []

pub record AddrAndUser : Type 0 where
  pub address : Address
  pub username : List ℕ

-- `readBytes`: the loop to the next zero byte, over the input; `buf` is what it has gathered.
unfoldable pub scan_zero : List ℕ → List ℕ → Conn → Result (List ℕ) × Conn
scan_zero buf [] c = (err eof, record c { input = [] })
scan_zero buf (b ∷ rest) c =
    let more = scan_zero (buf ++ (b ∷ [])) rest c in
    if b == 0 then (ok buf, record c { input = rest }) else more

unfoldable pub read_bytes : Io (List ℕ)
unfolding scan_zero
read_bytes c = scan_zero [] c.input c

-- The host name of SOCKS4a stands behind the user name.
read_host : ℕ → List ℕ → List ℕ → Io AddrAndUser
read_host port ip username =
    if text_eq ip is_socks4a
    then (do
      hostname ← read_bytes
      pure (record {
        address = record { name = hostname; ip = none; port = port };
        username = username;
      }))
    else pure
        (record { address = record { name = []; ip = some ip; port = port }; username = username })

unfoldable pub read_addr_and_user : Io AddrAndUser
unfolding read_host read_bytes
read_addr_and_user = do
  port ← read_full 2
  ip ← read_full 4
  username ← read_bytes
  read_host (uint16 port) ip username

-- The port and the IP that `writeAddr` sends: those of an absent address, or of an address with no
-- IPv4 form, are zeros.
reply_port : Option Address → ℕ
reply_port none = 0
reply_port (some a) = a.port % 2 ^ 16

ip4_of : Option (List ℕ) → Option (List ℕ)
ip4_of none = none
ip4_of (some ip) = to4 ip

reply_ip : Option Address → List ℕ
reply_ip none = is_none
reply_ip (some a) = elim (ip4_of a.ip) [ none ↦ is_none | some ip4 ↦ ip4 ]

unfoldable pub write_addr : Option Address → Io (Unit {0})
unfolding reply_port reply_ip ip4_of
write_addr addr = do write (put_uint16 (reply_port addr)); write (reply_ip addr)

unfoldable pub send_reply : ℕ → Option Address → Io (Unit {0})
send_reply resp addr = do write (0 ∷ resp ∷ []); write_addr addr

pub record Request : Type 0 where
  pub command : ℕ
  pub destination_addr : Address
  pub username : List ℕ

-- What a dial gives: the error's text, or the connection, by its local TCP address and the way its
-- tunnel ends, or a connection whose local address is none of TCP.
pub data Dialed : Type 0 where
  dial_error : List ℕ → Dialed
  other_target : Dialed
  target : Address → Ending → Dialed

-- The fields of `Server` that `ServeConn` reads; `ip_string` is `net.IP.String` of an IP that is
-- not nil.
pub record Server : Type 0 where
  pub proxy_dial : List ℕ → List ℕ → Dialed
  pub user_connect_handle : Option Handler
  pub windows : Bool
  pub ip_string : List ℕ → List ℕ

reply_or_fail : ℕ → Option Address → Io (Unit {0})
reply_or_fail resp addr = catch (send_reply resp addr) (λ e. raise (reply_failed e))

abbrev tunnel_result : Option NetError → Io (Unit {0})
tunnel_result none = pure tt
tunnel_result (some e) = raise (net_error e.text)

module _ (s : Server) where
  -- `address.Address` prefers the name here.
  unfoldable pub address_text : Address → List ℕ
  address_text a = elim a.name [
    | [] ↦ join_host_port (ip_text s.ip_string a.ip) (itoa a.port)
    | c ∷ name ↦ join_host_port (c ∷ name) (itoa a.port)
  ]

  connected : Dialed → Io (Unit {0})
  connected (dial_error e) = do
    reply_or_fail rejected_reply none
    raise (connect_failed (net_error e))
  connected other_target = λ c. (panicked, c)
  connected (target bind ending) = do
    reply_or_fail granted_reply (some bind)
    tunnel_result (tunnel s.windows ending)

  embed_handle_connect : Request → Io (Unit {0})
  embed_handle_connect req =
      closing (connected (s.proxy_dial (codes "tcp") (address_text req.destination_addr)))

  dest_host : Address → List ℕ
  dest_host a = elim a.name [ [] ↦ ip_text s.ip_string a.ip | c ∷ name ↦ c ∷ name ]

  handle_connect : Request → Io (Unit {0})
  handle_connect req = elim s.user_connect_handle [
    | none ↦ embed_handle_connect req
    | some handler ↦ do
      reply_or_fail granted_reply none
      handler (record {
        network = codes "tcp";
        destination = address_text req.destination_addr;
        dest_host = dest_host req.destination_addr;
        dest_port = req.destination_addr.port;
      })
  ]

  pub handle : Request → Io (Unit {0})
  handle req =
      if req.command == connect_command
      then handle_connect req
      else do send_reply rejected_reply none; raise (unsupported_command req.command)

  -- An address that cannot be read is answered by a rejection.
  read_failed : Error → Io AddrAndUser
  read_failed e = do reply_or_fail rejected_reply none; raise e

  check_version : ℕ → Io (Unit {0})
  check_version v = if v == socks4_version then pure tt else raise (unsupported_version v)

  unfoldable pub serve_conn : Io (Unit {0})
  unfolding check_version read_failed handle handle_connect dest_host embed_handle_connect connected
      reply_or_fail
  serve_conn = do
    version ← read_byte
    check_version version
    cmd ← read_byte
    addr ← catch read_addr_and_user read_failed
    handle (record { command = cmd; destination_addr = addr.address; username = addr.username })
