-- ===== src/Lib.antt =====
-- The verification library of vwarp, a proxy that tunnels through Cloudflare WARP.
--
-- The parts of the program and how they interact: a client speaks SOCKS5, SOCKS4 or HTTP to one
-- port; proxy/pkg/mixed looks at the first byte and hands the connection to a server, which dials
-- through the tunnel and copies bytes both ways. Under the MASQUE transport every QUIC packet passes
-- the obfuscation of masque/noize, whose configuration config/noize checks. Before that,
-- ipscanner finds an endpoint for wiresocks: its scanner keeps the options, its iterator generates
-- addresses, its engine measures them, last by a handshake of its ping, and its queue keeps the
-- fastest. The application of app registers an identity with warp, chooses a mode and its
-- obfuscation, starts a WireGuard device or a MASQUE tunnel on a network stack, and serves the proxy
-- on that stack; wireguard/preflightbind sends its packets around the handshakes of the device.
--
-- Files and what they model:
--   Prelude     lists, Boolean tests and integers over native numbers
--   Text        the functions of Go's strings, strconv and net packages that the program calls
--   Wire        a client's connection, as explicit state: unread bytes, bytes written, how many
--               writes still succeed, and whether it is closed; fallible code is a state function
--   Proxy       proxy/pkg/statute/statute.go; Proxy/Tunnel is statute/tunnel.go
--   Proxy/Socks5         proxy/pkg/socks5/common.go: readAddr is read_addr, writeAddr is write_addr
--   Proxy/Socks5/Server  proxy/pkg/socks5/server.go: ServeConn is serve_conn
--   Proxy/Socks5/Relay   embedHandleAssociate of that file: one round of its loop is relay_step
--   Proxy/Socks4         proxy/pkg/socks4/common.go and server.go
--   Proxy/Mixed          handleConnection of proxy/pkg/mixed/proxy.go
--   Proxy/Http           proxy/pkg/http/server.go and common.go: ServeConn is serve_conn, customConn.Read is
--                        custom_conn_read
--   Noize, Noize/Packet  masque/noize/noize.go: packet types, wrappers, padding, junk, fragments
--   Noize/Write          ObfuscateWrite of that file, with the state of each address
--   Noize/Cps            parseCPSPacket of that file
--   Noize/Sequence       executePreHandshake and executePostHandshake of that file
--   Noize/Conn           masque/noize/conn.go
--   Noize/Validator      ValidateNoizeConfig of config/noize/validator.go
--   Config, Config/Presets, Config/Loader  config/noize/config.go, validator.go, presets.go, loader.go
--   Adapter     app/masque_tun_adapter.go: isConnectionError, and maintainMasqueTunnel in
--               Adapter/Tunnel, as events of its goroutines on the state that they share, a look at
--               connectionBroken, the store that follows and the signal each on its own; the end of the
--               context, behind which each goroutine returns, is left out
--   Engine      ipscanner/engine/engine.go: Run, as events of its workers on the channels between them;
--               runPortScan is run_port_scan in Engine/PortScan
--   WireConfig  wiresocks/config.go: ParseConfig is parse_config, on the sections of the ini file
--   WireScan    wiresocks/scanner.go: the endpoints that RunScan scans
--   Scanner     ipscanner/scanner.go: NewScanner is new_scanner, the options are in Scanner/Setters and,
--               where they take text, in Scanner/Endpoint: addEndpoint is add_endpoint; RunScan of
--               wiresocks/scanner.go is scanner_of in Scanner/Scan
--   Scanner/Ping         ipscanner/ping/warp.go: initiateHandshake is initiate_handshake
--   IpUtils     iputils/iputils.go
--   Preflight   wireguard/preflightbind/preflight_bind.go: the frame, the rate limit, the
--               junk; Preflight/Sequence has Send, and Preflight/Cps its own parseCPSPacket. The
--               junk of the goroutine that Send starts is counted, and not ordered with its packets
--   App         app/app.go and app/wg.go: RunWarp is run_warp in App/Modes, runWarp is run_plain in
--               App/Connect, runWarpWithMasque is in App/Masque, establishWireguard in App/Device; a run is
--               the log of its calls
--   Warp        warp/endpoint.go, warp/key.go and warp/account.go
--   Queue       ipscanner/engine/queue.go: Enqueue is enqueue
--   Iterator    ipscanner/iterator/iterator.go: generateIPsFromRange; NewIterator and Generate are in
--               Iterator/Generate
--   The children of these modules hold their theorems; the modules Examples hold the tests.
--
-- Code that is not in the repository is a parameter: the dialer, a user's handler, the parsers of
-- netip, the resolver, the printing of an IP address, Go's net/http, the Noise library. The calls that
-- app makes of other parts end as a record Outside says. Random draws are arguments, so that a theorem
-- holds for each draw; a panic is a result. An `int` is an unbounded integer, except where the validator
-- adds up counts and where RunScan multiplies a time limit, which wrap at 64 bits.
--
-- Fuel: the binary search runs on one more than the length of its range, which shrinks each round; the
-- printing of a number on one more than the number; the fragments on the length of the packet, of
-- which a round takes at least one byte; the loop over the blocks of an IPv4 range on one more than
-- their number, of which a round takes one.
--
-- Not modelled: goroutines that copy bytes, timers and sleeping, logs, sockets, the QUIC, WireGuard
-- and psiphon libraries, the requests to the WARP service, the pings but that of WARP, and the flags of
-- cmd, since these are calls of other libraries. Of wireguard only preflightbind is modelled, since the
-- rest is a copy of another project.
pub mod Prelude
pub mod Text
pub mod Wire
pub mod Proxy
pub mod Noize
pub mod Queue
pub mod Iterator
pub mod Preflight
pub mod Adapter
pub mod App
pub mod Config
pub mod Engine
pub mod WireConfig
pub mod WireScan
pub mod Warp
pub mod IpUtils
pub mod Scanner
