-- ===== src/App/Options/Endpoint.antt =====
-- The endpoint of the MASQUE mode of app/app.go.
use vwarp.Prelude.{ℕ, ◌≡◌, refl, sym, false, List, ◌∙◌, ap}
use vwarp.Text.{codes}
use vwarp.Text.Bytes.{has_byte}
use vwarp.Text.HostPort.{join_host_port, IsPart, split-join}
use vwarp.App.Options.{masque_endpoint, with_masque_port}

masque_port-IsPart : IsPart (codes "443")
masque_port-IsPart = record { no_open = refl; no_close = refl }

-- For a host and a port without brackets, and a port without a colon: the endpoint of the joined pair is
-- the host with port 443, also for a host with colons, and taking the endpoint twice changes nothing.
pub masque_endpoint-join :
    (host port : List ℕ)
    → IsPart host
    → IsPart port
    → has_byte port b':' ≡ false
    → (masque_endpoint (join_host_port host port) ≡ join_host_port host (codes "443"))
      × (masque_endpoint (masque_endpoint (join_host_port host port))
          ≡ masque_endpoint (join_host_port host port))
unfolding masque_endpoint with_masque_port
masque_endpoint-join host port h p q =
    let once : masque_endpoint (join_host_port host port) ≡ join_host_port host (codes "443") =
      ap (with_masque_port (join_host_port host port)) (split-join port p q host h) in
    let again : masque_endpoint (join_host_port host (codes "443"))
        ≡ join_host_port host (codes "443") =
      ap (with_masque_port (join_host_port host (codes "443")))
        (split-join (codes "443") masque_port-IsPart refl host h) in
    (once, ap masque_endpoint once ∙ again ∙ sym once)
