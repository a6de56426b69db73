-- ===== src/Adapter.antt =====
-- app/masque_tun_adapter.go: which errors count as a lost connection, and the goroutines of
-- `maintainMasqueTunnel` in Adapter/Tunnel.antt.
pub mod Tunnel
pub mod Errors
mod Examples
use vwarp.Prelude.{ℕ, ◌+◌, Bool, true, false, ◌&&◌, ◌||◌, List, [], ◌∷◌, map, leb, if◌then◌else◌}
use vwarp.Text.{codes, contains}

-- `strings.ToLower` on ASCII text.
unfoldable pub to_lower : ℕ → ℕ
to_lower c = if leb 65 c && leb c 90 then c + 32 else c

-- `connectionErrors`, then `androidErrors`.
abbrev pub error_patterns : List (List ℕ)
error_patterns =
    codes "use of closed network connection"
    ∷ codes "connection reset by peer"
    ∷ codes "broken pipe"
    ∷ codes "network is unreachable"
    ∷ codes "no route to host"
    ∷ codes "connection refused"
    ∷ codes "connection timed out"
    ∷ codes "i/o timeout"
    ∷ codes "context deadline exceeded"
    ∷ codes "context canceled"
    ∷ codes "connection aborted"
    ∷ codes "transport endpoint is not connected"
    ∷ codes "socket is not connected"
    ∷ codes "network interface is down"
    ∷ codes "connection reset by peer"
    ∷ codes "EOF"
    ∷ codes "broken pipe"
    ∷ codes "permission denied"
    ∷ codes "operation not permitted"
    ∷ codes "protocol not available"
    ∷ codes "address family not supported"
    ∷ codes "network protocol is not available"
    ∷ []

unfoldable pub any_pattern : List ℕ → List (List ℕ) → Bool
any_pattern text [] = false
any_pattern text (p ∷ ps) = contains text p || any_pattern text ps

-- `isConnectionError`, by the text of the error.
unfoldable pub is_connection_error : List ℕ → Bool
is_connection_error text = any_pattern (map to_lower text) error_patterns
