-- ===== src/App/Masque.antt =====
-- app/app.go: the mode whose traffic goes through a MASQUE tunnel.
pub mod Attempts
use vwarp.Prelude.{
  ℕ, zero, suc, ◌*◌, true, false, not, List, [], ◌∷◌, ◌++◌, Option, none, some, if◌then◌else◌,
}
use vwarp.Text.{text_eq}
use vwarp.Noize.{NoizeConfig}
use vwarp.Config.{masque_enabled}
use vwarp.WireConfig.{Libraries}
use vwarp.App.{
  Call, err, AppError, Io, ◌>>=◌, ◌>>◌, pure, catch, lift, Outside, ask, perform, note_call,
}
use vwarp.App.Options.{
  WarpOptions, unified_masque, unified_noize, legacy_preset, masque_endpoint, dns_servers,
}
use vwarp.App.Peers.{single_mtu}
use vwarp.App.Connect.{usermode_tun_test, serve}

-- The obfuscation of the MASQUE mode. A file that cannot be loaded gives way to the preset.
unfoldable pub choose_noize : Outside → WarpOptions → Io (Option NoizeConfig)
choose_noize o opts =
    if masque_enabled (unified_masque opts.unified_noize_config)
    then pure (unified_noize (unified_masque opts.unified_noize_config))
    else if not opts.masque_noize
    then pure none
    else if text_eq opts.masque_noize_config []
    then pure (legacy_preset opts)
    else catch (ask o (λ l. some (o.noize l)) (Call.load_noize opts.masque_noize_config))
        λ e. pure (legacy_preset opts)

-- The attempts at an adapter: `left` more behind this one, and a pause that grows between them.
unfoldable pub create_adapter : Outside → Call → ℕ → ℕ → Io (Unit {0})
create_adapter o c zero attempt = perform o c
create_adapter o c (suc left) attempt =
    catch (perform o c)
      λ e. note_call (Call.sleep (attempt * 2)) >> create_adapter o c left (suc attempt)

unfoldable pub wrap_error : {A : Type 0} → (AppError → AppError) → Io A → Io A
wrap_error f m = catch m λ e. lift (err (f e))

-- `defer adapter.Close()`.
unfoldable pub closing : {A : Type 0} → Io A → Io A
closing m l = let (r, l') = m l in (r, Call.adapter_close ∷ l')

unfoldable pub parsed_address : Libraries → List ℕ → List (List ℕ)
parsed_address lib text = elim (lib.parse_addr text) [
  | none ↦ []
  | some addr ↦ if text_eq text [] then [] else addr ∷ []
]

unfoldable pub tun_addresses : Libraries → List ℕ × List ℕ → List (List ℕ)
tun_addresses lib (v4, v6) = parsed_address lib v4 ++ parsed_address lib v6

-- What follows once the adapter has addresses. A failed test is only a warning.
unfoldable pub serve_masque : Outside → WarpOptions → List (List ℕ) → Io (Unit {0})
serve_masque o opts [] = lift (err AppError.no_addresses)
serve_masque o opts (a ∷ addrs) = do
  net ←
      wrap_error AppError.netstack_failed
        (ask o o.stack (Call.create_net_tun (a ∷ addrs) (dns_servers opts.dns_addr) single_mtu))
  note_call (Call.maintain_tunnel net)
  catch (usermode_tun_test o opts net) λ e. pure tt
  wrap_error AppError.proxy_failed (serve o opts net)

unfoldable pub masque_tunnel : Outside → WarpOptions → Io (Unit {0})
masque_tunnel o opts l = serve_masque o opts (tun_addresses o.libraries (o.tunnel_addresses l)) l

-- The loop of three attempts.
unfoldable pub make_adapter : Outside → List ℕ → Option NoizeConfig → Io (Unit {0})
make_adapter o endpoint noize = create_adapter o (Call.new_adapter endpoint noize) 2 1

-- `runWarpWithMasque`; it returns when the context is cancelled.
unfoldable pub run_warp_with_masque : Outside → WarpOptions → List ℕ → Io (Unit {0})
run_warp_with_masque o opts endpoint = do
  noize ← choose_noize o opts
  wrap_error AppError.adapter_failed (make_adapter o (masque_endpoint endpoint) noize)
  closing (masque_tunnel o opts)
