-- ===== src/App/Device.antt =====
-- app/wg.go: the message that configures a WireGuard device, its start, and the wait for a handshake.
use vwarp.Prelude.{
  ℕ, zero, suc, Bool, true, false, List, [], ◌∷◌, ◌++◌, map, Option, none, some, ◌==◌,
  if◌then◌else◌,
}
use vwarp.Prelude.Int.{ℤ, pos, negsuc}
use vwarp.Text.{codes, text_eq}
use vwarp.Text.Decimal.{itoa, atoi}
use vwarp.Text.HostPort.{split_host_port}
use vwarp.Config.{AtomicNoizeConfig}
use vwarp.WireConfig.{Configuration, PeerConfig, Prefix}
use vwarp.App.{Call, ok, err, AppError, Io, ◌>>◌, pure, catch, lift, Outside, perform, note_call}

-- A line of the message, by its key and its value.
abbrev pub Setting : Type 0
Setting = List ℕ × List ℕ

-- `fmt.Sprintf("%s=%s\n", …)`
unfoldable pub line_of : Setting → List ℕ
line_of (key, value) = key ++ (b'=' ∷ (value ++ (10 ∷ [])))

unfoldable pub print_int : ℤ → List ℕ
print_int (pos n) = itoa n
print_int (negsuc n) = b'-' ∷ itoa (suc n)

unfoldable pub print_prefix : Prefix → List ℕ
print_prefix p = p.addr ++ (b'/' ∷ itoa p.bits)

unfoldable pub print_reserved : ℕ × ℕ × ℕ → List ℕ
print_reserved (a, b, c) = itoa a ++ (b',' ∷ (itoa b ++ (b',' ∷ itoa c)))

-- With an AtomicNoize configuration the trick is switched off.
unfoldable pub trick_value : List ℕ → Option AtomicNoizeConfig → List ℕ
trick_value t none = t
trick_value t (some c) = codes "t0"

unfoldable pub allowed_settings : List Prefix → List Setting
allowed_settings [] = []
allowed_settings (p ∷ ps) = (codes "allowed_ip", print_prefix p) ∷ allowed_settings ps

unfoldable pub peer_settings : List ℕ → Option AtomicNoizeConfig → PeerConfig → List Setting
peer_settings t atomic peer =
    (codes "public_key", peer.public_key)
    ∷ (codes "persistent_keepalive_interval", print_int peer.keep_alive)
    ∷ (codes "preshared_key", peer.pre_shared_key)
    ∷ (codes "endpoint", peer.endpoint)
    ∷ (codes "trick", trick_value t atomic)
    ∷ (codes "reserved", print_reserved peer.reserved)
    ∷ allowed_settings peer.allowed_ips

unfoldable pub all_peer_settings :
    List ℕ → Option AtomicNoizeConfig → List PeerConfig → List Setting
all_peer_settings t atomic [] = []
all_peer_settings t atomic (peer ∷ peers) =
    peer_settings t atomic peer ++ all_peer_settings t atomic peers

unfoldable pub mark_settings : ℕ → List Setting
mark_settings zero = []
mark_settings (suc n) = (codes "fwmark", itoa (suc n)) ∷ []

-- The settings in the order in which they are written.
unfoldable pub settings : Configuration → ℕ → List ℕ → Option AtomicNoizeConfig → List Setting
settings conf fwmark t atomic =
    (codes "private_key", conf.interface.private_key)
    ∷ (mark_settings fwmark ++ all_peer_settings t atomic conf.peers)

unfoldable pub print_settings : List Setting → List ℕ
print_settings [] = []
print_settings (s ∷ ss) = line_of s ++ print_settings ss

-- The text that goes to `IpcSet`.
unfoldable pub request : Configuration → ℕ → List ℕ → Option AtomicNoizeConfig → List ℕ
request conf fwmark t atomic = print_settings (settings conf fwmark t atomic)

-- The port of the first peer's endpoint, 443 if it has none.
unfoldable pub port_or : ℤ → Option ℤ → ℤ
port_or default none = default
port_or default (some port) = port

unfoldable pub port_of : Option (List ℕ × List ℕ) → ℤ
port_of none = pos 443
port_of (some (host, port)) = port_or (pos 443) (atoi port)

unfoldable pub preflight_port : List PeerConfig → ℤ
preflight_port [] = pos 443
preflight_port (peer ∷ peers) =
    if text_eq peer.endpoint [] then pos 443 else port_of (split_host_port peer.endpoint)

-- `bufio.Scanner` on lines under its limit of 64 KiB: a line ends at a newline, with a carriage return
-- in front of it dropped, and the last one may lack its end.
unfoldable pub grow_line : ℕ → List (List ℕ) → List (List ℕ)
grow_line c [] = (c ∷ []) ∷ []
grow_line c (l ∷ ls) = (c ∷ l) ∷ ls

unfoldable pub lines : List ℕ → List (List ℕ)
lines [] = []
lines (c ∷ s) = let rest = lines s in if c == 10 then [] ∷ rest else grow_line c rest

unfoldable pub drop_cr : List ℕ → List ℕ
drop_cr [] = []
drop_cr (c ∷ []) = if c == 13 then [] else c ∷ []
drop_cr (c ∷ d ∷ s) = c ∷ drop_cr (d ∷ s)

unfoldable pub scan_lines : List ℕ → List (List ℕ)
scan_lines s = map drop_cr (lines s)

-- `strings.Cut` at "=".
unfoldable pub cut : List ℕ → Option Setting
cut [] = none
cut (c ∷ s) = elim (cut s) [
  | none ↦ if c == b'=' then some ([], s) else none
  | some (key, value) ↦ if c == b'=' then some ([], s) else some (c ∷ key, value)
]

-- The inner loop of `waitHandshake`: an empty line ends it, and so does the first time of a handshake.
unfoldable pub handshake_secs : List ℕ → List (List ℕ) → List ℕ
handshake_secs last [] = last
handshake_secs last ([] ∷ ls) = last
handshake_secs last ((c ∷ l) ∷ ls) =
    let rest = handshake_secs last ls in
    elim (cut (c ∷ l)) [
      | none ↦ rest
      | some (key, value) ↦ if text_eq key (codes "last_handshake_time_sec") then value else rest
    ]

-- `waitHandshake`, on the answers of `IpcGet` until the deadline: whether a handshake was seen.
unfoldable pub wait_handshake : List ℕ → List (Option (List ℕ)) → Bool
wait_handshake last [] = false
wait_handshake last (none ∷ polls) = wait_handshake last polls
wait_handshake last (some answer ∷ polls) =
    let secs = handshake_secs last (scan_lines answer) in
    let rest = wait_handshake secs polls in if text_eq secs (codes "0") then rest else true

unfoldable pub handshake : Outside → Io (Unit {0})
handshake o l = (
  (if wait_handshake (codes "0") (o.polls l) then ok tt else err AppError.no_handshake),
  Call.ipc_get ∷ l,
)

unfoldable pub wrap_bind : Outside → Configuration → Option AtomicNoizeConfig → Io (Unit {0})
wrap_bind o conf none = pure tt
wrap_bind o conf (some c) = perform o (Call.new_preflight c (preflight_port conf.peers))

-- `establishWireguard`.
unfoldable pub establish_wireguard :
    Outside → Configuration → ℕ → List ℕ → Option AtomicNoizeConfig → List ℕ → Io (Unit {0})
establish_wireguard o conf fwmark t atomic proxy_address = do
  wrap_bind o conf atomic
  note_call (Call.new_device proxy_address)
  perform o (Call.ipc_set (request conf fwmark t atomic))
  perform o Call.device_up
  catch (handshake o) λ e. do note_call Call.bind_close; note_call Call.device_close; lift (err e)
