-- ===== src/Proxy/Socks5/Server.antt =====
-- proxy/pkg/socks5/server.go: `ServeConn` and the handlers of the commands.
pub mod Session
use vwarp.Prelude.{
  ℕ, List, [], ◌∷◌, ◌++◌, Option, none, some, Bool, true, false, ◌==◌, if◌then◌else◌,
}
use vwarp.Text.{codes}
use vwarp.Text.Bytes.{index_byte}
use vwarp.Wire.{
  Conn, Io, Error, unsupported_version, unsupported_command_version, unsupported_command,
  no_supported_auth, unrecognized_addr_type, not_inet_addr, reply_failed, connect_failed, net_error,
  Result, ok, err, blocked, panicked, pure, raise, catch, closing, read_byte, read_full, write,
  ◌>>=◌, ◌>>◌,
}
use vwarp.Proxy.{Address, ProxyRequest, Handler}
use vwarp.Proxy.Tunnel.{NetError, Ending, tunnel}
use vwarp.Proxy.Socks5.{
  socks5_version, connect_command, associate_command, no_auth, no_acceptable, success_reply,
  command_not_supported, addr_type_not_supported, err_to_reply, read_bytes, read_addr, send_reply,
  ip_text, address_text,
}

-- What a dial gives: the error's text, or the connection, by its local address (`none` if that is
-- not a TCP address) and the way its tunnel ends.
pub data Dialed : Type 0 where
  dial_error : List ℕ → Dialed
  target : Option Address → Ending → Dialed

-- What the UDP side does behind a successful reply to ASSOCIATE; see Socks5/Relay.antt.
pub data Listened : Type 0 where
  listen_error : List ℕ → Listened
  forward_error : List ℕ → Listened
  forward : Address → Io (Unit {0}) → Listened

pub record Request : Type 0 where
  pub command : ℕ
  pub destination_addr : Address

-- The fields of `Server` that `ServeConn` reads. The network functions answer by the text of the
-- network and of the address; `listen_packet` stands for `ProxyListenPacket`, `PacketForwardAddress`
-- and what follows them.
pub record Server : Type 0 where
  pub proxy_dial : List ℕ → List ℕ → Dialed
  pub listen_packet : List ℕ → List ℕ → Listened
  pub user_connect_handle : Option Handler
  pub windows : Bool
  pub ip_string : List ℕ → List ℕ

-- `if err := sendReply(…); err != nil { return fmt.Errorf("failed to send reply: %v", err) }`
reply_or_fail : ℕ → Option Address → Io (Unit {0})
reply_or_fail resp addr = catch (send_reply resp addr) (λ e. raise (reply_failed e))

abbrev tunnel_result : Option NetError → Io (Unit {0})
tunnel_result none = pure tt
tunnel_result (some e) = raise (net_error e.text)

module _ (s : Server) where
  connected : Dialed → Io (Unit {0})
  connected (dial_error e) = do
    reply_or_fail (err_to_reply (some e)) none
    raise (connect_failed (net_error e))
  connected (target none ending) = raise (connect_failed not_inet_addr)
  connected (target (some bind) ending) = do
    reply_or_fail success_reply (some bind)
    tunnel_result (tunnel s.windows ending)

  -- `embedHandleConnect` closes the connection on every path.
  embed_handle_connect : Request → Io (Unit {0})
  embed_handle_connect req =
      closing
        (connected (s.proxy_dial (codes "tcp") (address_text s.ip_string req.destination_addr)))

  dest_host : Address → List ℕ
  dest_host a = elim a.name [ [] ↦ ip_text s.ip_string a.ip | c ∷ name ↦ c ∷ name ]

  handle_connect : Request → Io (Unit {0})
  handle_connect req = elim s.user_connect_handle [
    | none ↦ embed_handle_connect req
    | some handler ↦ do
      reply_or_fail success_reply none
      handler (record {
        network = codes "tcp";
        destination = address_text s.ip_string req.destination_addr;
        dest_host = dest_host req.destination_addr;
        dest_port = req.destination_addr.port;
      })
  ]

  associated : Listened → Io (Unit {0})
  associated (listen_error e) = do
    reply_or_fail (err_to_reply (some e)) none
    raise (connect_failed (net_error e))
  associated (forward_error e) = raise (net_error e)
  associated (forward bind serve) = do reply_or_fail success_reply (some bind); serve

  handle_associate : Request → Io (Unit {0})
  handle_associate req =
      associated (s.listen_packet (codes "udp") (address_text s.ip_string req.destination_addr))

  pub handle : Request → Io (Unit {0})
  handle req =
      if req.command == connect_command
      then handle_connect req
      else if req.command == associate_command
      then handle_associate req
      else do send_reply command_not_supported none; raise (unsupported_command req.command)

  -- The error of `readAddr`: only an unknown address type is answered.
  read_dest_failed : Error → Io Address
  read_dest_failed unrecognized_addr_type = do
    send_reply addr_type_not_supported none
    raise unrecognized_addr_type
  read_dest_failed e = raise e

  negotiate : List ℕ → Io (Unit {0})
  negotiate methods = elim (index_byte methods no_auth) [
    | some i ↦ write (socks5_version ∷ no_auth ∷ [])
    | none ↦ do write (socks5_version ∷ no_acceptable ∷ []); raise no_supported_auth
  ]

  -- The three bytes behind the negotiation: version, command, reserved.
  read_command : List ℕ → Io ℕ
  read_command (v ∷ cmd ∷ rest) =
      if v == socks5_version then pure cmd else raise (unsupported_command_version v)
  read_command _ = λ c. (panicked, c)

  check_version : ℕ → Io (Unit {0})
  check_version v = if v == socks5_version then pure tt else raise (unsupported_version v)

  unfoldable pub serve_conn : Io (Unit {0})
  unfolding check_version read_command negotiate read_dest_failed handle handle_associate associated
      handle_connect dest_host embed_handle_connect connected reply_or_fail
  serve_conn = do
    version ← read_byte
    check_version version
    methods ← read_bytes
    negotiate methods
    header ← read_full 3
    command ← read_command header
    dest ← catch read_addr read_dest_failed
    handle (record { command = command; destination_addr = dest })
