-- ===== src/Noize/Conn.antt =====
-- `NoizeUDPConn` of masque/noize/conn.go: the wrapper of a UDP connection. What the connection sends is
-- the result of a write; `WriteTo` with a UDP address and `Write` end in `WriteToUDP`.
pub mod Presets
pub mod Transparent
use vwarp.Prelude.{
  ℕ, zero, suc, if◌then◌else◌, Bool, true, false, ◌&&◌, not, List, [], ◌∷◌, ◌++◌, Option, none,
  some,
}
use vwarp.Prelude.Int.{ℤ, pos, negsuc}
use vwarp.Text.{text_eq}
use vwarp.Noize.{NoizeConfig}
use vwarp.Noize.Write.{Noize, Task, Write, new, obfuscate_write}

pub record NoizeUdpConn : Type 0 where
  pub noize : Noize
  pub enabled : Bool

-- `WrapUDPConn`.
unfoldable pub wrap_udp_conn : NoizeConfig → NoizeUdpConn
wrap_udp_conn c = record { noize = new c; enabled = true }

unfoldable pub is_unset : ℤ → Bool
is_unset (pos zero) = true
is_unset (pos (suc n)) = false
is_unset (negsuc n) = false

-- The condition under which `WriteToUDP` takes all obfuscation to be disabled.
unfoldable pub all_off : NoizeConfig → Bool
all_off c =
    is_unset c.jc
    && is_unset c.jc_before_hs
    && is_unset c.jc_after_i1
    && is_unset c.jc_during_hs
    && is_unset c.jc_after_hs
    && is_unset c.padding_max
    && not c.fragment_initial
    && text_eq c.i1 []
    && text_eq c.i2 []

-- `WriteToUDP`: the connection, the goroutines that are started and the packet that is sent; `none` is
-- the panic of `ObfuscateWrite`.
unfoldable pub obfuscated :
    NoizeUdpConn → Noize × List Task × Option (List ℕ) → NoizeUdpConn × List Task × Option (List ℕ)
obfuscated conn (n, tasks, result) = (record conn { noize = n }, tasks, result)

unfoldable pub write_to_udp : NoizeUdpConn → Write → NoizeUdpConn × List Task × Option (List ℕ)
write_to_udp conn w =
    let coded = obfuscated conn (obfuscate_write conn.noize w) in
    if not conn.enabled
    then (conn, [], some w.packet)
    else (if all_off conn.noize.config then (conn, [], some w.packet) else coded)

-- `Enable`, `Disable` and `DisableObfuscation`, and `SetConfig`.
pub data Call : Type 0 where
  write : Write → Call
  enable disable : Call
  set_config : NoizeConfig → Call

unfoldable pub call : NoizeUdpConn → Call → NoizeUdpConn × List Task × List (Option (List ℕ))
call conn (write w) =
    let (conn', tasks, result) = write_to_udp conn w in (conn', tasks, result ∷ [])
call conn enable = (record conn { enabled = true }, [], [])
call conn disable = (record conn { enabled = false }, [], [])
call conn (set_config c) = (record conn { noize = new c }, [], [])

-- Calls one after the other, with all that they start and send.
unfoldable pub calls : NoizeUdpConn → List Call → NoizeUdpConn × List Task × List (Option (List ℕ))
calls conn [] = (conn, [], [])
calls conn (c ∷ rest) =
    let (conn', tasks, sent) = call conn c in
    let (conn'', tasks', sent') = calls conn' rest in (conn'', tasks ++ tasks', sent ++ sent')
