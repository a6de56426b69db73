-- ===== src/App/Connect.antt =====
-- app/app.go: the modes whose traffic goes through a WireGuard device.
use vwarp.Prelude.{ℕ, List, [], ◌∷◌, none}
use vwarp.Text.{codes}
use vwarp.WireConfig.{Configuration}
use vwarp.App.{
  Call, err, AppError, Io, ◌>>=◌, ◌>>◌, pure, catch, lift, Identity, Outside, ask, perform,
}
use vwarp.App.Options.{WarpOptions, get_atomic_noize_config}
use vwarp.App.Device.{establish_wireguard}
use vwarp.App.Peers.{
  single_mtu, first_of, must, with_network, set_peer, set_inner_peer, set_file_peers, prepare,
}

unfoldable pub create_stack : Outside → Configuration → Io ℕ
create_stack o conf =
    ask o o.stack
      (Call.create_net_tun conf.interface.addresses conf.interface.dns conf.interface.mtu)

-- `usermodeTunTest`.
unfoldable pub usermode_tun_test : Outside → WarpOptions → ℕ → Io (Unit {0})
usermode_tun_test o opts net = perform o (Call.get_url net opts.test_url)

-- The body of the loop over the tricks: a stack with a device on it that passes the test.
unfoldable pub connect_attempt : Outside → WarpOptions → Configuration → List ℕ → Io ℕ
connect_attempt o opts conf t = do
  net ← create_stack o conf
  establish_wireguard o conf opts.fw_mark t (get_atomic_noize_config opts) opts.proxy_address
  usermode_tun_test o opts net
  pure net

-- The loop: the error of the last attempt is the one that is returned.
unfoldable pub try_each : {A : Type 0} → (List ℕ → Io A) → List ℕ → List (List ℕ) → Io A
try_each f t [] = f t
try_each f t (u ∷ us) = catch (f t) λ e. try_each f u us

unfoldable pub connect : Outside → WarpOptions → Configuration → Io ℕ
connect o opts conf = try_each (connect_attempt o opts conf) (codes "t1") (codes "t2" ∷ [])

unfoldable pub serve : Outside → WarpOptions → ℕ → Io (Unit {0})
serve o opts net = perform o (Call.start_proxy net opts.bind)

unfoldable pub load_primary : Outside → Io Identity
load_primary o = ask o o.identity (Call.load_identity (codes "primary"))

-- `runWireguard`.
unfoldable pub run_wireguard : Outside → WarpOptions → Io (Unit {0})
run_wireguard o opts = do
  conf ← ask o o.configuration (Call.load_wireguard opts.wireguard_config)
  net ←
      connect o opts
        (record (with_network opts.dns_addr conf) { peers = set_file_peers o opts conf.peers })
  serve o opts net

-- `runWarp`.
unfoldable pub run_plain : Outside → WarpOptions → List ℕ → Io (Unit {0})
run_plain o opts endpoint = do
  ident ← load_primary o
  conf ← prepare o opts (set_peer opts endpoint) ident
  net ← connect o opts conf
  serve o opts net

-- The inner tunnel of `runWarpInWarp`: no trick, no AtomicNoize, no proxy, and one attempt.
unfoldable pub connect_inner : Outside → WarpOptions → Configuration → Io ℕ
connect_inner o opts conf = do
  net ← create_stack o conf
  establish_wireguard o conf opts.fw_mark (codes "t0") none []
  usermode_tun_test o opts net
  pure net

-- `runWarpInWarp`.
unfoldable pub run_warp_in_warp : Outside → WarpOptions → List (List ℕ) → Io (Unit {0})
run_warp_in_warp o opts endpoints = do
  ident ← load_primary o
  endpoint ← lift (must (first_of endpoints))
  conf ← prepare o opts (set_peer opts endpoint) ident
  net ← connect o opts conf
  addr ← ask o o.address (Call.forward_udp endpoint net single_mtu)
  inner_ident ← ask o o.identity (Call.load_identity (codes "secondary"))
  inner_conf ← prepare o opts (set_inner_peer addr) inner_ident
  inner_net ← connect_inner o opts inner_conf
  serve o opts inner_net

-- `runWarpWithPsiphon`.
unfoldable pub run_warp_with_psiphon : Outside → WarpOptions → List ℕ → List ℕ → Io (Unit {0})
run_warp_with_psiphon o opts country endpoint = do
  ident ← load_primary o
  conf ← prepare o opts (set_peer opts endpoint) ident
  net ← connect o opts conf
  warp_bind ← ask o o.address (Call.start_proxy net (codes "127.0.0.1:0"))
  catch (perform o (Call.run_psiphon warp_bind opts.bind country))
      λ e. lift (err (AppError.psiphon_failed e))
