-- ===== src/Proxy.antt =====
-- proxy/pkg: what the SOCKS servers share, of statute/statute.go and of the `address` type that
-- socks4/common.go and socks5/common.go both declare.
pub mod Ip
pub mod Tunnel
pub mod Socks5
pub mod Socks4
pub mod Http
pub mod Mixed
use vwarp.Prelude.{ℕ, List, [], ◌∷◌, Option, none, some, Bool}
use vwarp.Wire.{Io}

-- Either the name or the IP is used. `none` is the nil IP.
pub record Address : Type 0 where
  pub name : List ℕ
  pub ip : Option (List ℕ)
  pub port : ℕ

-- `statute.ProxyRequest`, less the connection, which is the one that the handler runs on.
pub record ProxyRequest : Type 0 where
  pub network : List ℕ
  pub destination : List ℕ
  pub dest_host : List ℕ
  pub dest_port : ℕ

-- `statute.UserConnectHandler`.
abbrev pub Handler : Type 0
Handler = ProxyRequest → Io (Unit {0})
