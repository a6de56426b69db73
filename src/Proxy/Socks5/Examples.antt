-- ===== src/Proxy/Socks5/Examples.antt =====
-- Runs of proxy/pkg/socks5, and the theorems about it at concrete inputs.
use vwarp.Prelude.{
  ℕ, ◌+◌, ◌-◌, ◌≡◌, ◌≢◌, ◌⊎◌, inl, inr, refl, List, [], ◌∷◌, ◌++◌, Option, none, some, false, true,
  arith, replicate, length-replicate,
}
use vwarp.Text.{codes}
use vwarp.Text.Bytes.{has_byte}
use vwarp.Text.HostPort.{join_host_port}
use vwarp.Wire.{Conn, ok, err, unsupported_version, no_supported_auth}
use vwarp.Wire.Laws.{fed}
use vwarp.Proxy.{Address}
use vwarp.Proxy.Ip.{to4}
use vwarp.Proxy.Tunnel.{Ending}
use vwarp.Proxy.Socks5.{connect_command, read_addr, write_addr, address_text}
use vwarp.Proxy.Socks5.Codec.{IsAddress, address_form, canonical, sent, read_addr-write_addr}
use vwarp.Proxy.Socks5.Server.{Server, target, listen_error, serve_conn}
use vwarp.Proxy.Socks5.Server.Session.{
  greeting, request_form, connect_outcome, serve_conn-connect, serve_conn-refusals,
}
use vwarp.Proxy.Socks5.Relay.{idle, to_target, to_source, skip, panic, relay_step}
use vwarp.Proxy.Socks5.Relay.Forward.{IpText, inet, relay_forward, relay_reply, relay_reply_panics}
use vwarp.Proxy.Socks5.Relay.Named.{pinned, request, relay_named_blocked}

-- A printed form of IPs that meets the laws: every byte as a letter behind a mark.
abbrev letters : List ℕ → List ℕ
letters [] = []
letters (b ∷ bs) = (b + 100) ∷ letters bs

abbrev bytes_of : List ℕ → List ℕ
bytes_of [] = []
bytes_of (c ∷ s) = (c - 100) ∷ bytes_of s

abbrev ip_string : List ℕ → List ℕ
ip_string ip = b'i' ∷ letters ip

abbrev parse_ip : List ℕ → Option (List ℕ)
parse_ip [] = none
parse_ip (c ∷ s) = some (bytes_of s)

letters_free : (ip : List ℕ) (b : ℕ) → (b ≡ 91) ⊎ (b ≡ 93) → has_byte (letters ip) b ≡ false
letters_free [] b h = refl
letters_free (c ∷ ip) b h = ground (arith, letters_free ip b h)

bytes_of-letters : (ip : List ℕ) → bytes_of (letters ip) ≡ ip
bytes_of-letters [] = refl
bytes_of-letters (b ∷ ip) = ground (arith, bytes_of-letters ip)

IpText-laws : IpText ip_string parse_ip
IpText-laws = record {
  not_empty = λ ip e. cc;
  part = λ ip. record {
    no_open = ground (arith, letters_free ip 91 (inl refl));
    no_close = ground (arith, letters_free ip 93 (inr refl));
  };
  again = λ ip. ip;
  parse_string = λ ip h. rw (bytes_of-letters ip);
  same_ip = λ ip h. refl;
  again_length = λ ip h. h;
}

abbrev fresh : List ℕ → Conn
fresh input = record { input = input; output = []; writes_left = 9; closed = false }

abbrev cloudflare : Address
cloudflare = inet (1 ∷ 1 ∷ 1 ∷ 1 ∷ []) 443

read_addr-write_addr_example :
    (write_addr (some cloudflare) (fresh []) ≡ (ok tt, sent (address_form cloudflare) 6 (fresh [])))
    × (read_addr (fed (address_form cloudflare ++ (7 ∷ [])) (fresh []))
        ≡ (ok (canonical cloudflare), fed (7 ∷ []) (fresh [])))
unfolding to4
read_addr-write_addr_example =
    read_addr-write_addr cloudflare (7 ∷ []) (fresh []) (fresh []) 6 (omega arith, (inl refl, refl))
      refl

abbrev no_error : Ending
no_error = record {
  copy1 = none;
  copy2 = none;
  close1 = none;
  close2 = none;
  ctx_err = none;
  ctx_canceled = true;
}

-- A server that reaches every address, from 10.0.0.2:50000.
abbrev server : Server
server = record {
  proxy_dial = λ network address. target (some (inet (10 ∷ 0 ∷ 0 ∷ 2 ∷ []) 50000)) no_error;
  listen_packet = λ network address. listen_error (codes "refused");
  user_connect_handle = none;
  windows = false;
  ip_string = ip_string;
}

serve_conn-connect_example :
    serve_conn server
      (fed (greeting (0 ∷ []) ++ (request_form connect_command cloudflare ++ (9 ∷ []))) (fresh []))
    ≡ connect_outcome false
        (9 ∷ [])
        (fresh [])
        4
        (target (some (inet (10 ∷ 0 ∷ 0 ∷ 2 ∷ []) 50000)) no_error)
serve_conn-connect_example =
    serve_conn-connect server (0 ∷ []) cloudflare (9 ∷ []) (fresh []) 4
      (target (some (inet (10 ∷ 0 ∷ 0 ∷ 2 ∷ []) 50000)) no_error) refl
      (omega arith, (inl refl, refl)) refl refl (omega arith, (inl refl, refl)) refl

serve_conn-refusals_example :
    (serve_conn server (fed (4 ∷ 1 ∷ []) (fresh []))
      ≡ (err (unsupported_version 4), fed (1 ∷ []) (fresh [])))
    × (serve_conn server (fed (greeting (2 ∷ []) ++ (1 ∷ [])) (fresh []))
        ≡ (err no_supported_auth, fed (1 ∷ []) (sent (5 ∷ 255 ∷ []) 8 (fresh []))))
serve_conn-refusals_example =
    serve_conn-refusals server 4 (2 ∷ []) (1 ∷ []) (fresh []) 8 refl (omega arith) refl

relay_forward_example :
    relay_step ip_string parse_ip idle (record {
      sender = codes "client";
      bytes = 0 ∷ 0 ∷ 0 ∷ (address_form cloudflare ++ (9 ∷ []));
      write_ok = true;
    })
    ≡ (
      record {
        source = some (codes "client");
        target = some (canonical cloudflare);
        reply_prefix = none;
      },
      to_target (canonical cloudflare) (9 ∷ []),
    )
relay_forward_example =
    relay_forward ip_string parse_ip (codes "client") 0 0 0 (1 ∷ 1 ∷ 1 ∷ 1 ∷ []) 443 (9 ∷ [])
      (inl refl) (omega arith)

client-ne_target : codes "client" ≢ address_text ip_string cloudflare
unfolding address_text join_host_port
client-ne_target e = ground arith

relay_reply_example :
    relay_step ip_string parse_ip
      (record {
        source = some (codes "client");
        target = some cloudflare;
        reply_prefix = some (0 ∷ 0 ∷ 0 ∷ address_form cloudflare);
      })
      (record { sender = address_text ip_string cloudflare; bytes = 5 ∷ 6 ∷ []; write_ok = true })
    ≡ (
      record {
        source = some (codes "client");
        target = some cloudflare;
        reply_prefix = some (0 ∷ 0 ∷ 0 ∷ address_form cloudflare);
      },
      to_source ((0 ∷ 0 ∷ 0 ∷ address_form cloudflare) ++ (5 ∷ 6 ∷ [])),
    )
relay_reply_example =
    relay_reply ip_string parse_ip IpText-laws (codes "client") (1 ∷ 1 ∷ 1 ∷ 1 ∷ []) 443
      (5 ∷ 6 ∷ []) (inl refl) (omega arith) client-ne_target (omega arith)
      (some (0 ∷ 0 ∷ 0 ∷ address_form cloudflare)) (inr refl)

relay_reply_panics_example :
    (relay_step ip_string parse_ip
      (record { source = some (codes "client"); target = some cloudflare; reply_prefix = none })
      (record {
        sender = address_text ip_string cloudflare;
        bytes = replicate 2039 0;
        write_ok = true;
      })).1
    ≡ panic
relay_reply_panics_example =
    relay_reply_panics ip_string parse_ip IpText-laws (codes "client") (1 ∷ 1 ∷ 1 ∷ 1 ∷ []) 443
      (replicate 2039 0) (inl refl) (omega arith) client-ne_target
      (omega (arith, length-replicate {A = ℕ} 2039 0))

relay_named_blocked_example :
    (relay_step ip_string parse_ip idle (
        request
          (codes "client")
          0
          0
          0
          (record { name = codes "a.b"; ip = none; port = 53 })
          (9 ∷ []))
      ≡ (pinned (codes "client") 53, skip))
    × ((x y z : ℕ) (a : Address) (payload : List ℕ)
        → IsAddress a
        → relay_step ip_string parse_ip
            (pinned (codes "client") 53)
            (request (codes "client") x y z a payload)
          ≡ (pinned (codes "client") 53, skip))
relay_named_blocked_example =
    relay_named_blocked ip_string parse_ip IpText-laws (codes "client") 0 0 0 (codes "a.b") 53
      (9 ∷ []) (omega arith)
