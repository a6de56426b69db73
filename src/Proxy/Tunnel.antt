-- ===== src/Proxy/Tunnel.antt =====
-- proxy/pkg/statute/tunnel.go: how `Tunnel` ends. The copying of bytes is Go's `io.CopyBuffer`.
use vwarp.Prelude.{
  ℕ, Bool, true, false, ◌&&◌, ◌||◌, List, [], ◌∷◌, Option, none, some, ◌==◌, if◌then◌else◌,
}
use vwarp.Text.{codes, contains}

-- An error by its text; `syscall` is the number of a `wsarecv` system call error under a `read`.
pub record NetError : Type 0 where
  pub text : List ℕ
  pub syscall : Option ℕ

abbrev wsa_econnaborted : ℕ
wsa_econnaborted = 10053

abbrev wsa_econnreset : ℕ
wsa_econnreset = 10054

is_wsa_closed : Option ℕ → Bool
is_wsa_closed none = false
is_wsa_closed (some n) = n == wsa_econnreset || n == wsa_econnaborted

-- `windows` is `runtime.GOOS == "windows"`.
unfoldable pub is_closed_conn_error : Bool → NetError → Bool
unfolding is_wsa_closed
is_closed_conn_error windows e =
    if contains e.text (codes "use of closed network connection")
    then true
    else windows && is_wsa_closed e.syscall

-- `tunnelErr.FirstError`.
pub first_error : Bool → List (Option NetError) → Option NetError
first_error windows [] = none
first_error windows (none ∷ rest) = first_error windows rest
first_error windows (some e ∷ rest) = if is_closed_conn_error windows e then none else some e

-- The five slots of `errs` when `Tunnel` reads them: the two copies (`none` also for one that has not
-- ended), the two closes, and `ctx.Err()`, of which `context.Canceled` is cleared.
pub record Ending : Type 0 where
  pub copy1 : Option NetError
  pub copy2 : Option NetError
  pub close1 : Option NetError
  pub close2 : Option NetError
  pub ctx_err : Option NetError
  pub ctx_canceled : Bool

pub tunnel : Bool → Ending → Option NetError
unfolding first_error is_closed_conn_error
tunnel windows t =
    first_error windows
      (t.copy1 ∷ t.copy2 ∷ t.close1 ∷ t.close2 ∷ (if t.ctx_canceled then none else t.ctx_err) ∷ [])
