-- ===== src/App/Tested.antt =====
-- A proxy listens only on a network stack that has passed the test: the property of a log, and how the
-- ways of app/app.go to chain calls keep it.
pub mod Connect
pub mod Modes
use vwarp.Prelude.{
  ℕ, zero, suc, ◌≡◌, refl, ◌⊎◌, inl, inr, Bool, true, false, not, List, [], ◌∷◌, Option, none, some,
  if◌then◌else◌,
}
use mathlib.Core.Path.{subst}
use vwarp.Text.{codes, text_eq}
use vwarp.Config.{AtomicNoizeConfig}
use vwarp.WireConfig.{Configuration, PeerConfig}
use vwarp.App.{
  Call, Result, ok, err, panicked, AppError, Log, Io, continue, ◌>>=◌, ◌>>◌, pure, on_error, catch,
  lift, Identity, Outside, failure, ask, perform, note_call,
}
use vwarp.App.Options.{WarpOptions, mode_error, get_atomic_noize_config}
use vwarp.App.Device.{establish_wireguard, wrap_bind, handshake}
use vwarp.App.Peers.{prepare, first_of, must}
use vwarp.App.Connect.{
  create_stack, usermode_tun_test, connect_attempt, try_each, connect, serve, load_primary,
  run_wireguard, run_plain, connect_inner, run_warp_in_warp, run_warp_with_psiphon,
}
use vwarp.App.Modes.{
  scan_endpoints, find_endpoints, with_first, run_wireguard_mode, run_mode, refuse_or, run_warp,
}

abbrev pub Always : Log → Type 0
Always l = Unit

-- Any result.
abbrev pub Any : {A : Type 0} → A → Log → Type 0
Any a l = Unit

module _ (o : Outside) where
  -- The last call is a test of the stack that did not fail.
  unfoldable pub Passed : ℕ → Log → Type 0
  Passed n [] = ⊥
  Passed n (Call.get_url m url ∷ l) = (n ≡ m) × (o.error l (Call.get_url m url) ≡ none)
  Passed n (c ∷ l) = ⊥

  -- What has to hold where a call is made.
  unfoldable pub Allowed : Call → Log → Type 0
  Allowed (Call.start_proxy n bind) l = Passed n l
  Allowed c l = Unit

  unfoldable pub AllTested : Log → Type 0
  AllTested [] = Unit
  AllTested (c ∷ l) = Allowed c l × AllTested l

  -- A run keeps the property, and what it gives has another one.
  unfoldable pub Ends : {A : Type 0} → (A → Log → Type 0) → Result A × Log → Type 0
  Ends Q (ok a, l) = AllTested l × Q a l
  Ends Q (err e, l) = AllTested l
  Ends Q (panicked, l) = AllTested l

  unfoldable pub Safe : {A : Type 0} → (Log → Type 0) → Io A → (A → Log → Type 0) → Type 0
  Safe P m Q = (l : Log) → AllTested l → P l → Ends Q (m l)

module _ (o : Outside) {A B : Type 0} where
  pub continue-Ends :
      (Q : A → Log → Type 0) (R : B → Log → Type 0) (f : A → Io B)
      → ((a : A) → Safe o (Q a) (f a) R)
      → (r : Result A) (l : Log) → Ends o Q (r, l)
      → Ends o R (continue r f l)
  unfolding Ends Safe
  continue-Ends Q R f h (ok a) l (tested, q) = h a l tested q
  continue-Ends Q R f h (err e) l tested = tested
  continue-Ends Q R f h panicked l tested = tested

  pub bind-Safe :
      (P : Log → Type 0) (Q : A → Log → Type 0) (R : B → Log → Type 0) (m : Io A) (f : A → Io B)
      → Safe o P m Q
      → ((a : A) → Safe o (Q a) (f a) R)
      → Safe o P (m >>= f) R
  unfolding Safe ◌>>=◌
  bind-Safe P Q R m f hm hf l tested p = continue-Ends Q R f hf (m l).0 (m l).1 (hm l tested p)

module _ (o : Outside) {A : Type 0} where
  pub on_error-Ends :
      (Q : A → Log → Type 0) (f : AppError → Io A)
      → ((e : AppError) → Safe o Always (f e) Q)
      → (r : Result A) (l : Log) → Ends o Q (r, l)
      → Ends o Q (on_error r f l)
  unfolding Ends Safe
  on_error-Ends Q f h (ok a) l (tested, q) = (tested, q)
  on_error-Ends Q f h (err e) l tested = h e l tested tt
  on_error-Ends Q f h panicked l tested = tested

  pub catch-Safe :
      (P : Log → Type 0) (Q : A → Log → Type 0) (m : Io A) (f : AppError → Io A)
      → Safe o P m Q
      → ((e : AppError) → Safe o Always (f e) Q)
      → Safe o P (catch m f) Q
  unfolding Safe catch
  catch-Safe P Q m f hm hf l tested p = on_error-Ends Q f hf (m l).0 (m l).1 (hm l tested p)

  pub pure-Safe : (Q : A → Log → Type 0) (a : A) → Safe o (Q a) (pure a) Q
  unfolding Safe Ends pure
  pure-Safe Q a l tested q = (tested, q)

  pub lift-Safe : (P : Log → Type 0) (r : Result A) → Safe o P (lift r) Any
  unfolding Safe Ends lift
  lift-Safe P (ok a) l tested p = (tested, tt)
  lift-Safe P (err e) l tested p = tested
  lift-Safe P panicked l tested p = tested

  pub failure-Ends :
      (Q : A → Log → Type 0) (e : Option (List ℕ)) (a : A) (l : Log)
      → AllTested o l
      → (e ≡ none → Q a l)
      → Ends o Q (failure e (ok a), l)
  unfolding Ends
  failure-Ends Q none a l tested q = (tested, q refl)
  failure-Ends Q (some text) a l tested q = tested

  pub ask-Safe :
      (P : Log → Type 0) (answer : Log → A) (c : Call)
      → ((l : Log) → P l → Allowed o c l)
      → Safe o P (ask o answer c) Any
  unfolding Safe ask AllTested
  ask-Safe P answer c h l tested p =
      failure-Ends Any (o.error l c) (answer l) (c ∷ l) (h l p, tested) λ e. tt

  pub weaken-Safe :
      (P : Log → Type 0) (m : Io A) (Q : A → Log → Type 0) → Safe o Always m Q → Safe o P m Q
  unfolding Safe
  weaken-Safe P m Q h l tested p = h l tested tt

module _ (o : Outside) where
  pub perform-Safe :
      (P : Log → Type 0) (c : Call) → ((l : Log) → P l → Allowed o c l) → Safe o P (perform o c) Any
  unfolding Safe perform AllTested
  perform-Safe P c h l tested p =
      failure-Ends o Any (o.error l c) tt (c ∷ l) (h l p, tested) λ e. tt

  pub note_call-Safe : (c : Call) → ((l : Log) → Allowed o c l) → Safe o Always (note_call c) Any
  unfolding Safe note_call Ends AllTested
  note_call-Safe c h l tested p = ((h l, tested), tt)

  pub test-Safe :
      (opts : WarpOptions) (n : ℕ) → Safe o Always (usermode_tun_test o opts n) (λ u. Passed o n)
  unfolding Safe perform AllTested usermode_tun_test Passed Allowed
  test-Safe opts n l tested p =
      failure-Ends o (λ u. Passed o n) (o.error l (Call.get_url n opts.test_url)) tt
        (Call.get_url n opts.test_url ∷ l) (tt, tested) λ e. (refl, e)

  pub serve-Safe : (opts : WarpOptions) (n : ℕ) → Safe o (Passed o n) (serve o opts n) Any
  unfolding serve Allowed
  serve-Safe opts n = perform-Safe (Passed o n) _ λ l p. p

  pub wrap_bind-Safe :
      (conf : Configuration) (atomic : Option AtomicNoizeConfig)
      → Safe o Always (wrap_bind o conf atomic) Any
  unfolding wrap_bind Allowed
  wrap_bind-Safe conf none = pure-Safe o Any tt
  wrap_bind-Safe conf (some c) = perform-Safe Always _ λ l p. tt

  pub handshake-Safe : Safe o Always (handshake o) Any
  unfolding Safe handshake Ends AllTested Allowed
  handshake-Safe l tested p = chosen _
    where
      chosen :
          (b : Bool)
          → Ends o Any ((if b then ok tt else err AppError.no_handshake), Call.ipc_get ∷ l)
      chosen true = ((tt, tested), tt)
      chosen false = (tt, tested)
