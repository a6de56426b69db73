-- ===== src/App/Tested/Connect.antt =====
-- The parts of the WireGuard modes of app/app.go keep the property of App/Tested.antt.
use vwarp.Prelude.{ℕ, List, [], ◌∷◌, Option, none}
use vwarp.Text.{codes}
use vwarp.Config.{AtomicNoizeConfig}
use vwarp.WireConfig.{Configuration, PeerConfig}
use vwarp.App.{Call, err, Log, Io, ◌>>=◌, ◌>>◌, pure, Identity, Outside, perform}
use vwarp.App.Options.{WarpOptions, get_atomic_noize_config}
use vwarp.App.Device.{establish_wireguard}
use vwarp.App.Peers.{prepare}
use vwarp.App.Connect.{
  create_stack, usermode_tun_test, connect_attempt, try_each, connect, load_primary, connect_inner,
}
use vwarp.App.Tested.{
  Always, Any, Passed, Allowed, Safe, bind-Safe, catch-Safe, pure-Safe, lift-Safe, ask-Safe,
  perform-Safe, note_call-Safe, test-Safe, wrap_bind-Safe, handshake-Safe,
}

module _ (o : Outside) where
  -- A step that is no start of a proxy, with the steps behind it.
  pub then-Safe :
      {B : Type 0} (P : Log → Type 0) (R : B → Log → Type 0) (c : Call) (k : Io B)
      → ((l : Log) → P l → Allowed o c l)
      → Safe o Always k R
      → Safe o P (perform o c >> k) R
  then-Safe P R c k h hk = bind-Safe o P Any R _ _ (perform-Safe o P c h) λ u. hk

  pub establish_wireguard-Safe :
      (conf : Configuration) (fwmark : ℕ) (t : List ℕ) (atomic : Option AtomicNoizeConfig)
      (proxy_address : List ℕ)
      → Safe o Always (establish_wireguard o conf fwmark t atomic proxy_address) Any
  unfolding establish_wireguard Allowed
  establish_wireguard-Safe conf fwmark t atomic proxy_address =
      bind-Safe o Always Any Any _ _ (wrap_bind-Safe o conf atomic) λ u.
        bind-Safe o Always Any Any _ _ (note_call-Safe o _ λ l. tt) λ v.
          then-Safe Always Any _ _ (λ l p. tt)
            (then-Safe Always Any _ _ (λ l p. tt)
              (catch-Safe o Always Any _ _ (handshake-Safe o) λ e.
                bind-Safe o Always Any Any _ _ (note_call-Safe o _ λ l. tt) λ w.
                  bind-Safe o Always Any Any _ _ (note_call-Safe o _ λ l. tt)
                    λ x. lift-Safe o Always (err e)))

  -- A device on a stack, and its test.
  pub tested_stack-Safe :
      (opts : WarpOptions) (conf : Configuration) (establish : Io (Unit {0}))
      → Safe o Always establish Any
      → Safe o Always
          (create_stack o conf >>= λ net. establish >> (usermode_tun_test o opts net >> pure net))
          (Passed o)
  unfolding create_stack Allowed
  tested_stack-Safe opts conf establish h =
      bind-Safe o Always Any (Passed o) _ _ (ask-Safe o Always _ _ λ l p. tt) λ net.
        bind-Safe o Always Any (Passed o) _ _ h λ u.
          bind-Safe o Always (λ v. Passed o net) (Passed o) _ _ (test-Safe o opts net)
            λ v. pure-Safe o (Passed o) net

  pub connect_attempt-Safe :
      (opts : WarpOptions) (conf : Configuration) (t : List ℕ)
      → Safe o Always (connect_attempt o opts conf t) (Passed o)
  unfolding connect_attempt
  connect_attempt-Safe opts conf t = tested_stack-Safe opts conf _ (
      establish_wireguard-Safe conf opts.fw_mark t (get_atomic_noize_config opts)
        opts.proxy_address)

  pub try_each-Safe :
      {A : Type 0} (Q : A → Log → Type 0) (f : List ℕ → Io A)
      → ((t : List ℕ) → Safe o Always (f t) Q)
      → (t : List ℕ) (us : List (List ℕ)) → Safe o Always (try_each f t us) Q
  unfolding try_each
  try_each-Safe Q f h t [] = h t
  try_each-Safe Q f h t (u ∷ us) = catch-Safe o Always Q (f t) _ (h t) λ e. try_each-Safe Q f h u us

  pub connect-Safe :
      (opts : WarpOptions) (conf : Configuration) → Safe o Always (connect o opts conf) (Passed o)
  unfolding connect
  connect-Safe opts conf =
      try_each-Safe (Passed o) (connect_attempt o opts conf) (connect_attempt-Safe opts conf)
        (codes "t1") (codes "t2" ∷ [])

  pub connect_inner-Safe :
      (opts : WarpOptions) (conf : Configuration)
      → Safe o Always (connect_inner o opts conf) (Passed o)
  unfolding connect_inner
  connect_inner-Safe opts conf =
      tested_stack-Safe opts conf _
        (establish_wireguard-Safe conf opts.fw_mark (codes "t0") none [])

  pub load_primary-Safe : Safe o Always (load_primary o) Any
  unfolding load_primary Allowed
  load_primary-Safe = ask-Safe o Always _ _ λ l p. tt

  pub prepare-Safe :
      (opts : WarpOptions) (change : PeerConfig → PeerConfig) (ident : Identity)
      → Safe o Always (prepare o opts change ident) Any
  unfolding prepare
  prepare-Safe opts change ident =
      bind-Safe o Always Any Any _ _ (lift-Safe o Always _)
        λ conf. bind-Safe o Always Any Any _ _ (lift-Safe o Always _) λ peers. pure-Safe o Any _
