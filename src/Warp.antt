-- ===== src/Warp.antt =====
-- warp: the endpoints of WARP (endpoint.go), the keys (key.go) and the stored identity (account.go).
pub mod Endpoint
pub mod Key
pub mod Account
mod Examples
