-- ===== src/Wire.antt =====
-- A `net.Conn` as the proxy servers of proxy/pkg use it: the bytes that the peer sends before it
-- closes its side, the bytes written so far, and how many `Write` calls still succeed.
-- A one-byte `Read` blocks until a byte or the end arrives, and `io.ReadFull` until all bytes do.
pub mod Laws
pub mod Reader
use vwarp.Prelude.{
  ℕ, zero, suc, ◌-◌, Bool, true, false, ◌≡◌, refl, List, [], ◌∷◌, ◌++◌, length, take, drop, ltb,
  if◌then◌else◌,
}

-- The errors of the servers. `net_error` carries the text of an error of a network function.
pub data Error : Type 0 where
  eof unexpected_eof write_failed : Error
  unsupported_version unsupported_command_version unsupported_command : ℕ → Error
  no_supported_auth unrecognized_addr_type string_too_long : Error
  bad_host_port not_inet_addr : Error
  reply_failed connect_failed : Error → Error
  net_error : List ℕ → Error

pub record Conn : Type 0 where
  pub input : List ℕ
  pub output : List ℕ
  pub writes_left : ℕ
  pub closed : Bool

-- `blocked` and `panicked` are no Go values: the goroutine waits for ever, or takes the process down.
pub data Result {ℓ} (A : Type ℓ) : Type ℓ where
  ok : A → Result A
  err : Error → Result A
  blocked panicked : Result A

-- What was read or written before an error stays so.
abbrev pub Io {ℓ} : Type ℓ → Type ℓ
Io A = Conn → Result A × Conn

module _ {ℓ κ} {A : Type ℓ} {B : Type κ} where
  abbrev pub continue : Result A → (A → Conn → Result B × Conn) → Conn → Result B × Conn
  continue (ok a) f c = f a c
  continue (err e) f c = (err e, c)
  continue blocked f c = (blocked, c)
  continue panicked f c = (panicked, c)

  infixl 10 ◌>>=◌
  abbrev pub ◌>>=◌ :
      (Conn → Result A × Conn) → (A → Conn → Result B × Conn) → Conn → Result B × Conn
  ◌>>=◌ m f c = let (r, c') = m c in continue r f c'

module _ {ℓ} {B : Type ℓ} where
  infixl 10 ◌>>◌
  abbrev pub ◌>>◌ : Io (Unit {0}) → (Conn → Result B × Conn) → Conn → Result B × Conn
  m >> k = m >>= λ _. k

module _ {ℓ} {A : Type ℓ} where
  abbrev pub pure : A → Io A
  pure a c = (ok a, c)

  abbrev pub raise : Error → Io A
  raise e c = (err e, c)

  abbrev pub on_error : Result A → (Error → Conn → Result A × Conn) → Conn → Result A × Conn
  on_error (err e) f c = f e c
  on_error r f c = (r, c)

  -- `if err != nil { … }` behind a call, with the rest of the function behind `>>=`.
  abbrev pub catch : Io A → (Error → Io A) → Io A
  catch m f c = let (r, c') = m c in on_error r f c'

  -- `defer conn.Close()`.
  abbrev pub closing : Io A → Io A
  closing m c = let (r, c') = m c in (r, record c' { closed = true })

-- `r.Read` into a buffer of one byte.
unfoldable pub read_byte : Io ℕ
read_byte c = elim c.input [ [] ↦ (err eof, c) | b ∷ rest ↦ (ok b, record c { input = rest }) ]

-- `io.ReadFull` into a buffer of `n` bytes: at the end of the input it has used up what there was.
unfoldable pub read_full : ℕ → Io (List ℕ)
read_full n c =
    if ltb (length c.input) n
    then (err (if ltb 0 (length c.input) then unexpected_eof else eof), record c { input = [] })
    else (ok (take n c.input), record c { input = drop n c.input })

abbrev spend : ℕ → List ℕ → Io (Unit {0})
spend zero bytes c = (err write_failed, c)
spend (suc k) bytes c = (ok tt, record c { output = c.output ++ bytes; writes_left = k })

unfoldable pub write : List ℕ → Io (Unit {0})
write bytes c = spend c.writes_left bytes c
