-- ===== src/App/Modes.antt =====
-- app/app.go: `RunWarp`, which chooses one of the modes.
use vwarp.Prelude.{ℕ, not, List, [], ◌∷◌, Option, none, some, if◌then◌else◌}
use vwarp.Text.{text_eq}
use vwarp.App.{Call, err, AppError, Io, ◌>>=◌, pure, catch, lift, Outside, ask}
use vwarp.App.Options.{WarpOptions, mode_error}
use vwarp.App.Peers.{first_of, must}
use vwarp.App.Connect.{
  load_primary, run_wireguard, run_plain, run_warp_in_warp, run_warp_with_psiphon,
}
use vwarp.App.Masque.{run_warp_with_masque}

unfoldable pub scan_endpoints : Outside → Io (List (List ℕ))
scan_endpoints o = do
  ident ← load_primary o
  peer ← lift (must (first_of ident.peers))
  ask o o.endpoints (Call.run_scan ident.private_key peer.0)

-- The endpoints of the scan that is wished for, or the one of the options, twice.
unfoldable pub find_endpoints : Outside → WarpOptions → Io (List (List ℕ))
find_endpoints o opts =
    if opts.scan then scan_endpoints o else pure (opts.endpoint ∷ opts.endpoint ∷ [])

unfoldable pub with_first : List (List ℕ) → (List ℕ → Io (Unit {0})) → Io (Unit {0})
with_first endpoints run = lift (must (first_of endpoints)) >>= run

unfoldable pub run_wireguard_mode :
    Outside → WarpOptions → Option (List ℕ) → List (List ℕ) → Io (Unit {0})
run_wireguard_mode o opts (some country) endpoints =
    with_first endpoints (run_warp_with_psiphon o opts country)
run_wireguard_mode o opts none endpoints =
    if opts.gool then run_warp_in_warp o opts endpoints else with_first endpoints (run_plain o opts)

-- MASQUE first, and plain WireGuard if it fails.
unfoldable pub run_preferred : Outside → WarpOptions → List ℕ → Io (Unit {0})
run_preferred o opts endpoint =
    catch (run_warp_with_masque o opts endpoint) λ e. run_plain o opts endpoint

-- The switch of `RunWarp`.
unfoldable pub run_mode : Outside → WarpOptions → List (List ℕ) → Io (Unit {0})
run_mode o opts endpoints =
    if opts.masque
    then with_first endpoints (run_warp_with_masque o opts)
    else if opts.masque_preferred
    then with_first endpoints (run_preferred o opts)
    else run_wireguard_mode o opts opts.psiphon endpoints

unfoldable pub refuse_or : Option AppError → Io (Unit {0}) → Io (Unit {0})
refuse_or (some e) m = lift (err e)
refuse_or none m = m

-- `RunWarp`.
unfoldable pub run_warp : Outside → WarpOptions → Io (Unit {0})
run_warp o opts =
    if not (text_eq opts.wireguard_config [])
    then run_wireguard o opts
    else refuse_or (mode_error opts) (find_endpoints o opts >>= run_mode o opts)
