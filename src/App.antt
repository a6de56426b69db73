-- ===== src/App.antt =====
-- app/app.go and app/wg.go: the modes in which the program runs. The calls that reach outside of the
-- two files (the registration, the scanner, the network stack, the WireGuard device, the MASQUE
-- adapter, the proxy) are recorded in a log, and an `Outside` says how each of them ends.
pub mod Options
pub mod Device
pub mod Peers
pub mod Connect
pub mod Masque
pub mod Modes
pub mod Tested
pub mod Refused
mod Examples
use vwarp.Prelude.{ℕ, Bool, List, [], ◌∷◌, Option, none, some}
use vwarp.Prelude.Int.{ℤ}
use vwarp.Noize.{NoizeConfig}
use vwarp.Config.{AtomicNoizeConfig}
use vwarp.WireConfig.{ParseError, Libraries, Configuration}

-- A call, with the arguments that matter. A network stack is a number.
pub data Call : Type 0 where
  -- `LoadOrCreateIdentity` in a directory of the cache, and `RunScan` with the keys of an identity
  load_identity : List ℕ → Call
  run_scan : List ℕ → List ℕ → Call
  -- `ParseConfig` of a file
  load_wireguard : List ℕ → Call
  -- `CreateNetTUN` with the addresses, the DNS servers and the MTU
  create_net_tun : List (List ℕ) → List (List ℕ) → ℤ → Call
  -- `NewWithAtomicNoize` with the port, and `NewDevice` with the address of a proxy
  new_preflight : AtomicNoizeConfig → ℤ → Call
  new_device : List ℕ → Call
  ipc_set : List ℕ → Call
  device_up ipc_get bind_close device_close : Call
  -- `client.Get` over a network stack
  get_url : ℕ → List ℕ → Call
  -- `StartProxy` on a network stack, with the address to listen on
  start_proxy : ℕ → List ℕ → Call
  -- `NewVtunUDPForwarder` to an endpoint over a network stack
  forward_udp : List ℕ → ℕ → ℤ → Call
  run_psiphon : List ℕ → List ℕ → List ℕ → Call
  -- the calls of the MASQUE mode
  load_noize : List ℕ → Call
  new_adapter : List ℕ → Option NoizeConfig → Call
  sleep : ℕ → Call
  maintain_tunnel : ℕ → Call
  adapter_close : Call

-- An error of a call by its text, and the errors of the two files.
pub data AppError : Type 0 where
  outside : List ℕ → AppError
  psiphon_and_gool masque_and_gool masque_and_psiphon no_country : AppError
  bad_reserved : ParseError → AppError
  no_handshake no_addresses : AppError
  psiphon_failed adapter_failed netstack_failed proxy_failed : AppError → AppError

-- `panicked` takes the process down.
pub data Result (A : Type 0) : Type 0 where
  ok : A → Result A
  err : AppError → Result A
  panicked : Result A

-- The calls so far, the last one in front.
abbrev pub Log : Type 0
Log = List Call

abbrev pub Io : Type 0 → Type 0
Io A = Log → Result A × Log

module _ {A B : Type 0} where
  abbrev pub continue : Result A → (A → Io B) → Io B
  continue (ok a) f l = f a l
  continue (err e) f l = (err e, l)
  continue panicked f l = (panicked, l)

  infixl 10 ◌>>=◌
  unfoldable pub ◌>>=◌ : Io A → (A → Io B) → Io B
  ◌>>=◌ m f l = let (r, l') = m l in continue r f l'

module _ {B : Type 0} where
  infixl 10 ◌>>◌
  abbrev pub ◌>>◌ : Io (Unit {0}) → Io B → Io B
  m >> k = m >>= λ _. k

module _ {A : Type 0} where
  unfoldable pub pure : A → Io A
  pure a l = (ok a, l)

  abbrev pub on_error : Result A → (AppError → Io A) → Io A
  on_error (err e) f l = f e l
  on_error (ok a) f l = (ok a, l)
  on_error panicked f l = (panicked, l)

  -- `if err != nil { … }` behind a call.
  unfoldable pub catch : Io A → (AppError → Io A) → Io A
  catch m f l = let (r, l') = m l in on_error r f l'

  -- A result that is known.
  unfoldable pub lift : Result A → Io A
  lift r l = (r, l)

-- `warp.Identity`, as far as it is used.
pub record Identity : Type 0 where
  pub private_key : List ℕ
  pub peers : List (List ℕ × List ℕ)
  pub client_id : List ℕ
  pub v4 : List ℕ
  pub v6 : List ℕ

-- What lies outside. Each field sees the calls before: `error` says whether a call fails, and the
-- others what a call gives that does not fail. `polls` are the answers of `IpcGet` until the deadline.
pub record Outside : Type 0 where
  pub error : Log → Call → Option (List ℕ)
  pub identity : Log → Identity
  pub endpoints : Log → List (List ℕ)
  pub configuration : Log → Configuration
  pub noize : Log → NoizeConfig
  pub stack : Log → ℕ
  pub address : Log → List ℕ
  pub tunnel_addresses : Log → List ℕ × List ℕ
  pub polls : Log → List (Option (List ℕ))
  pub libraries : Libraries
  -- `iputils.ParseResolveAddressPort` with a DNS server, as text
  pub resolve : List ℕ → List ℕ → Option (List ℕ)

abbrev pub failure : {A : Type 0} → Option (List ℕ) → Result A → Result A
failure none r = r
failure (some text) r = err (outside text)

module _ {A : Type 0} where
  -- A call that gives a value, and one that gives none.
  unfoldable pub ask : Outside → (Log → A) → Call → Io A
  ask o answer c l = (failure (o.error l c) (ok (answer l)), c ∷ l)

unfoldable pub perform : Outside → Call → Io (Unit {0})
perform o c l = (failure (o.error l c) (ok tt), c ∷ l)

-- A call whose result is not looked at.
unfoldable pub note_call : Call → Io (Unit {0})
note_call c l = (ok tt, c ∷ l)
