-- ===== src/Scanner/Ping.antt =====
-- ipscanner/ping/warp.go: the WARP ping, which is a WireGuard handshake written out. Base64, the curve,
-- the Noise library and BLAKE2s are parameters, and so are the random numbers and the connection.
use vwarp.Prelude.{
  ℕ, zero, suc, ◌+◌, ◌-◌, ◌*◌, ◌/◌, ◌%◌, ◌^◌, Bool, true, false, not, List, [], ◌∷◌, ◌++◌, Option,
  none, some, ltb, ◌==◌, if◌then◌else◌, length, take, drop, replicate, get_or, ◌>>=◌,
}
use vwarp.Text.{codes}
use vwarp.Noize.{random_bytes}
use vwarp.Preflight.{put_uint32}
use vwarp.Queue.{IpInfo}
use vwarp.Scanner.{ScannerOptions}

-- The libraries, with the type of a handshake state; `none` is an error. `new_state` takes the static key
-- pair, the peer's key, the preshared key and the ephemeral key pair.
pub record Crypto (S : Type 0) : Type 0 where
  pub decode : List ℕ → Option (List ℕ)
  pub public_key : List ℕ → List ℕ
  pub x25519_base : List ℕ → Option (List ℕ)
  pub new_state : List ℕ × List ℕ → List ℕ → List ℕ → List ℕ × List ℕ → Option S
  pub write_message : S → List ℕ → Option (List ℕ × S)
  pub read_message : S → List ℕ → Option (List ℕ)
  pub sum256 : List ℕ → List ℕ
  pub sum128 : List ℕ → List ℕ → Option (List ℕ)

-- One run against one address: what is drawn, the clock, and what the connection does. `cancelled` says
-- it of the context before each random packet, `written` of the writes; the write with the number of the
-- random packets is that of the initiation. `response` is the datagram that is read in time.
pub record Link : Type 0 where
  pub ephemeral : ℕ → ℕ
  pub seconds : ℕ
  pub nanoseconds : ℕ
  pub dialed : Bool
  pub count : ℕ
  pub size : ℕ → ℕ
  pub noise : ℕ → ℕ → ℕ
  pub cancelled : ℕ → Bool
  pub written : ℕ → Bool
  pub response : Option (List ℕ)
  pub rtt : ℕ

-- `uint32ToBytes` and `binary.LittleEndian.Uint32`.
unfoldable pub uint32_to_bytes : ℕ → List ℕ
uint32_to_bytes n = (n % 256) ∷ (n / 2 ^ 8 % 256) ∷ (n / 2 ^ 16 % 256) ∷ (n / 2 ^ 24 % 256) ∷ []

unfoldable pub little_endian : List ℕ → ℕ
little_endian [] = 0
little_endian (b ∷ bytes) = b + 256 * little_endian bytes

-- `AppendUint64`, most significant byte first.
unfoldable pub put_uint64 : ℕ → List ℕ
put_uint64 n = put_uint32 (n / 2 ^ 32) ++ put_uint32 n

-- `randomInt`, from a number that is drawn, for bounds in order.
unfoldable pub random_int : ℕ → ℕ → ℕ → ℕ
random_int lo hi draw = let range = hi - lo in if ltb range 1 then 0 else lo + draw % range

-- The TAI64N timestamp.
unfoldable pub timestamp : ℕ → ℕ → List ℕ
timestamp seconds nanoseconds =
    put_uint64 ((4611686018427387914 + seconds) % 2 ^ 64) ++ put_uint32 nanoseconds

-- What was written to the connection, and the time until the answer; `none` is an error.
pub record Ping : Type 0 where
  pub sent : List (List ℕ)
  pub rtt : Option ℕ

-- The random packets that are written from number `i` on, `left` of them, and whether none failed.
unfoldable pub sent_before : List ℕ → List (List ℕ) × Bool → List (List ℕ) × Bool
sent_before packet (packets, ok) = (packet ∷ packets, ok)

unfoldable pub random_packets : Link → ℕ → ℕ → List (List ℕ) × Bool
random_packets link zero i = ([], true)
random_packets link (suc left) i =
    let rest = random_packets link left (suc i) in
    if link.cancelled i
    then ([], false)
    else if link.written i
    then sent_before (random_bytes (link.noise i) (random_int 40 100 (link.size i))) rest
    else ([], false)

unfoldable pub packet_count : Link → ℕ
packet_count link = random_int 8 15 link.count

-- The handshake packet, from the message of the Noise library and a MAC.
unfoldable pub unsealed : List ℕ → List ℕ
unsealed message = 1 ∷ 0 ∷ 0 ∷ 0 ∷ (uint32_to_bytes 28 ++ message)

unfoldable pub initiation : List ℕ → List ℕ → List ℕ
initiation message mac = unsealed message ++ (take 16 mac ++ replicate 16 0)

unfoldable pub preshared : List ℕ → List ℕ → List ℕ
preshared [] key = replicate 32 0
preshared (c ∷ text) key = key

unfoldable pub accepted : Option (List ℕ) → ℕ → Option ℕ
accepted none rtt = none
accepted (some []) rtt = some rtt
accepted (some (b ∷ payload)) rtt = none

-- Port 0 stands for one of the ports to scan, by a number that is drawn.
unfoldable pub warp_port : ScannerOptions → ℕ → ℕ
warp_port o draw =
    if o.port == 0
    then get_or o.default_scan_ports (draw % length o.default_scan_ports) 0
    else o.port

unfoldable pub info_of : List ℕ → ℕ → Option ℕ → Option IpInfo
info_of ip port none = none
info_of ip port (some rtt) =
    some (record { addr_port = record { addr = ip; port = port }; rtt = rtt })

module _ {S : Type 0} (lib : Crypto S) where
  -- `staticKeypair`: the public key is that of the first 32 bytes, with zeros behind a shorter key.
  unfoldable pub static_keypair : List ℕ → Option (List ℕ × List ℕ)
  static_keypair text = do
    private_key ← lib.decode text
    some (private_key, lib.public_key (take 32 (private_key ++ replicate 32 0)))

  unfoldable pub ephemeral_keypair : (ℕ → ℕ) → Option (List ℕ × List ℕ)
  ephemeral_keypair draws = do
    public_key ← lib.x25519_base (random_bytes draws 32)
    some (random_bytes draws 32, public_key)

  -- The handshake state and the packet that are prepared before the connection.
  unfoldable pub prepare : Link → List ℕ → List ℕ → List ℕ → Option (List ℕ × S)
  prepare link private_key peer_public_key preshared_key = do
    static_pair ← static_keypair private_key
    peer ← lib.decode peer_public_key
    psk ← lib.decode preshared_key
    ephemeral_pair ← ephemeral_keypair link.ephemeral
    state ← lib.new_state static_pair peer (preshared preshared_key psk) ephemeral_pair
    written ← lib.write_message state (timestamp link.seconds link.nanoseconds)
    mac ← lib.sum128 (lib.sum256 (codes "mac1----" ++ peer)) (unsealed written.0)
    some (initiation written.0 mac, written.1)

  -- The checks of the answer.
  unfoldable pub check_response : S → List ℕ → ℕ → Option ℕ
  check_response state response rtt =
      if ltb (length response) 60
      then none
      else if not (get_or response 0 0 == 2)
      then none
      else if not (little_endian (take 4 (drop 8 response)) == 28)
      then none
      else accepted (lib.read_message state (take 48 (drop 12 response))) rtt

  -- At most 92 bytes are read.
  unfoldable pub answer : S → Option (List ℕ) → ℕ → Option ℕ
  answer state none rtt = none
  answer state (some datagram) rtt = check_response state (take 92 datagram) rtt

  unfoldable pub exchange : Link → List ℕ × S → List (List ℕ) × Bool → Ping
  exchange link (packet, state) (packets, false) = record { sent = packets; rtt = none }
  exchange link (packet, state) (packets, true) =
      if link.written (packet_count link)
      then record { sent = packets ++ (packet ∷ []); rtt = answer state link.response link.rtt }
      else record { sent = packets; rtt = none }

  unfoldable pub connected : Link → Option (List ℕ × S) → Ping
  connected link none = record { sent = []; rtt = none }
  connected link (some prepared) =
      if link.dialed
      then exchange link prepared (random_packets link (packet_count link) 0)
      else record { sent = []; rtt = none }

  unfoldable pub initiate_handshake : Link → List ℕ → List ℕ → List ℕ → Ping
  initiate_handshake link private_key peer_public_key preshared_key =
      connected link (prepare link private_key peer_public_key preshared_key)

  -- `PingContext`.
  unfoldable pub ping_context : (List ℕ → ℕ → Link) → ScannerOptions → List ℕ → ℕ → Option IpInfo
  ping_context link o ip draw =
      let port = warp_port o draw in
      info_of ip port
        (initiate_handshake (link ip port) o.warp_private_key o.warp_peer_public_key
          o.warp_preshared_key).rtt
