-- ===== src/App/Tested/Modes.antt =====
-- A proxy of the WireGuard modes listens only on a network stack that has passed the test.
use vwarp.Prelude.{ℕ, ◌≡◌, Bool, true, false, not, List, [], Option, none, some, if◌then◌else◌}
use vwarp.Text.{text_eq}
use vwarp.WireConfig.{Configuration, PeerConfig}
use vwarp.App.{Result, ok, err, panicked, AppError, Log, Io, ◌>>=◌, Identity, Outside}
use vwarp.App.Options.{WarpOptions, mode_error}
use vwarp.App.Peers.{prepare}
use vwarp.App.Connect.{
  connect, load_primary, run_wireguard, run_plain, run_warp_in_warp, run_warp_with_psiphon,
}
use vwarp.App.Modes.{
  scan_endpoints, find_endpoints, with_first, run_wireguard_mode, run_mode, refuse_or, run_warp,
}
use vwarp.App.Tested.{
  Always, Any, Passed, Allowed, AllTested, Ends, Safe, bind-Safe, catch-Safe, pure-Safe, lift-Safe,
  ask-Safe, perform-Safe, serve-Safe,
}
use vwarp.App.Tested.Connect.{connect-Safe, connect_inner-Safe, load_primary-Safe, prepare-Safe}

module _ (o : Outside) (opts : WarpOptions) where
  -- A first masque_tunnel and what is done with its stack.
  connected-Safe :
      {B : Type 0} (R : B → Log → Type 0) (conf : Configuration) (k : ℕ → Io B)
      → ((net : ℕ) → Safe o (Passed o net) (k net) R)
      → Safe o Always (connect o opts conf >>= k) R
  connected-Safe R conf k h = bind-Safe o Always (Passed o) R _ _ (connect-Safe o opts conf) h

  primary-Safe :
      {B : Type 0} (R : B → Log → Type 0) (k : Identity → Io B)
      → ((ident : Identity) → Safe o Always (k ident) R)
      → Safe o Always (load_primary o >>= k) R
  primary-Safe R k h = bind-Safe o Always Any R _ _ (load_primary-Safe o) h

  prepared-Safe :
      {B : Type 0} (R : B → Log → Type 0) (change : PeerConfig → PeerConfig) (ident : Identity)
      (k : Configuration → Io B)
      → ((conf : Configuration) → Safe o Always (k conf) R)
      → Safe o Always (prepare o opts change ident >>= k) R
  prepared-Safe R change ident k h =
      bind-Safe o Always Any R _ _ (prepare-Safe o opts change ident) h

  run_wireguard-Safe : Safe o Always (run_wireguard o opts) Any
  unfolding run_wireguard Allowed
  run_wireguard-Safe =
      bind-Safe o Always Any Any _ _ (ask-Safe o Always _ _ λ l p. tt)
        λ conf. connected-Safe Any _ _ λ net. serve-Safe o opts net

  run_plain-Safe : (endpoint : List ℕ) → Safe o Always (run_plain o opts endpoint) Any
  unfolding run_plain
  run_plain-Safe endpoint = primary-Safe Any _ λ ident.
      prepared-Safe Any _ ident _ λ conf. connected-Safe Any _ _ λ net. serve-Safe o opts net

  run_warp_in_warp-Safe :
      (endpoints : List (List ℕ)) → Safe o Always (run_warp_in_warp o opts endpoints) Any
  unfolding run_warp_in_warp Allowed
  run_warp_in_warp-Safe endpoints = primary-Safe Any _ λ ident.
      bind-Safe o Always Any Any _ _ (lift-Safe o Always _) λ endpoint.
        prepared-Safe Any _ ident _ λ conf. connected-Safe Any _ _ λ net.
          bind-Safe o (Passed o net) Any Any _ _ (ask-Safe o _ _ _ λ l p. tt) λ addr.
            bind-Safe o Always Any Any _ _ (ask-Safe o Always _ _ λ l p. tt) λ inner_ident.
              prepared-Safe Any _ inner_ident _ λ inner_conf.
                bind-Safe o Always (Passed o) Any _ _ (connect_inner-Safe o opts inner_conf)
                  λ inner_net. serve-Safe o opts inner_net

  run_warp_with_psiphon-Safe :
      (country endpoint : List ℕ)
      → Safe o Always (run_warp_with_psiphon o opts country endpoint) Any
  unfolding run_warp_with_psiphon Allowed
  run_warp_with_psiphon-Safe country endpoint = primary-Safe Any _ λ ident.
      prepared-Safe Any _ ident _ λ conf. connected-Safe Any _ _ λ net.
        bind-Safe o (Passed o net) Any Any _ _ (ask-Safe o _ _ _ λ l p. p) λ warp_bind.
          catch-Safe o Always Any _ _ (perform-Safe o Always _ λ l p. tt) λ e. lift-Safe o Always _

  with_first-Safe :
      (endpoints : List (List ℕ)) (run : List ℕ → Io (Unit {0}))
      → ((endpoint : List ℕ) → Safe o Always (run endpoint) Any)
      → Safe o Always (with_first endpoints run) Any
  unfolding with_first
  with_first-Safe endpoints run h = bind-Safe o Always Any Any _ _ (lift-Safe o Always _) h

  if-Safe :
      {B : Type 0} (R : B → Log → Type 0) (b : Bool) (m k : Io B)
      → Safe o Always m R
      → Safe o Always k R
      → Safe o Always (if b then m else k) R
  if-Safe R true m k hm hk = hm
  if-Safe R false m k hm hk = hk

  else-Safe :
      {B : Type 0} (R : B → Log → Type 0) (b : Bool) (m k : Io B)
      → b ≡ false
      → Safe o Always k R
      → Safe o Always (if b then m else k) R
  else-Safe R true m k h hk = cc
  else-Safe R false m k h hk = hk

  run_wireguard_mode-Safe :
      (psiphon : Option (List ℕ)) (endpoints : List (List ℕ))
      → Safe o Always (run_wireguard_mode o opts psiphon endpoints) Any
  unfolding run_wireguard_mode
  run_wireguard_mode-Safe (some country) endpoints =
      with_first-Safe endpoints _ (run_warp_with_psiphon-Safe country)
  run_wireguard_mode-Safe none endpoints =
      if-Safe Any opts.gool _ _ (run_warp_in_warp-Safe endpoints)
        (with_first-Safe endpoints _ run_plain-Safe)

  find_endpoints-Safe : Safe o Always (find_endpoints o opts) Any
  unfolding find_endpoints scan_endpoints Allowed
  find_endpoints-Safe =
      if-Safe Any opts.scan _ _
        (primary-Safe Any _ λ ident.
          bind-Safe o Always Any Any _ _ (lift-Safe o Always _)
            λ peer. ask-Safe o Always _ _ λ l p. tt)
        (pure-Safe o Any _)

  refuse_or-Safe :
      (e : Option AppError) (m : Io (Unit {0}))
      → Safe o Always m Any
      → Safe o Always (refuse_or e m) Any
  unfolding refuse_or
  refuse_or-Safe (some e) m h = lift-Safe o Always (err e)
  refuse_or-Safe none m h = h

  -- Without MASQUE, a run keeps the property.
  run_mode-Safe :
      opts.masque ≡ false
      → opts.masque_preferred ≡ false
      → (endpoints : List (List ℕ)) → Safe o Always (run_mode o opts endpoints) Any
  unfolding run_mode
  run_mode-Safe no_masque not_preferred endpoints = else-Safe Any opts.masque _ _ no_masque (
      else-Safe Any opts.masque_preferred _ _ not_preferred
        (run_wireguard_mode-Safe opts.psiphon endpoints))

  run_warp-Safe :
      opts.masque ≡ false → opts.masque_preferred ≡ false → Safe o Always (run_warp o opts) Any
  unfolding run_warp
  run_warp-Safe no_masque not_preferred =
      if-Safe Any (not (text_eq opts.wireguard_config [])) _ _ run_wireguard-Safe (
        refuse_or-Safe (mode_error opts) _ (
          bind-Safe o Always Any Any _ _ find_endpoints-Safe
            (run_mode-Safe no_masque not_preferred)))

Ends-log : (o : Outside) (r : Result (Unit {0})) (l : Log) → Ends o Any (r, l) → AllTested o l
unfolding Ends
Ends-log o (ok a) l (tested, u) = tested
Ends-log o (err e) l tested = tested
Ends-log o panicked l tested = tested

-- If neither the MASQUE mode nor its preference is switched on, then whatever fails and however the run
-- ends: each proxy that it has started listens on a network stack whose test did not fail and was the
-- call right before the start.
pub run_warp-AllTested :
    (o : Outside) (opts : WarpOptions)
    → opts.masque ≡ false
    → opts.masque_preferred ≡ false
    → AllTested o (run_warp o opts []).1
unfolding Safe AllTested
run_warp-AllTested o opts no_masque not_preferred =
    Ends-log o (run_warp o opts []).0 (run_warp o opts []).1
      (run_warp-Safe o opts no_masque not_preferred [] tt tt)
