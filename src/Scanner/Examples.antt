-- ===== src/Scanner/Examples.antt =====
-- The theorems on ipscanner and the options of `RunScan` at concrete inputs.
use vwarp.Prelude.{
  ℕ, ◌≡◌, ◌≤◌, ◌<◌, refl, true, false, if◌then◌else◌, ◌==◌, List, [], ◌∷◌, ◌++◌, map, none, some,
  length, replicate, arith,
}
use vwarp.Prelude.Int.{pos}
use vwarp.Text.{codes, text_eq}
use vwarp.Text.Decimal.{itoa}
use vwarp.Text.HostPort.{join_host_port}
use vwarp.Text.Trim.{is_space}
use vwarp.Queue.{AddrPort}
use vwarp.Preflight.{handshake_initiation}
use vwarp.Scanner.{ScannerOptions, Net, initial_options}
use vwarp.Scanner.Endpoint.{add_endpoint}
use vwarp.Scanner.Scan.{ScanOptions, scanner_of}
use vwarp.Scanner.Lists.{join_commas}
use vwarp.Scanner.Literal.{IsLiteral}
use vwarp.Scanner.Printed.{Scans, scanner_of-printed}
use vwarp.Scanner.Appended.{AllGiven, add_endpoint-Given}
use vwarp.Scanner.Ping.{
  Crypto, Link, initiation, accepted, prepare, static_keypair, ephemeral_keypair,
  initiate_handshake,
}
use vwarp.Scanner.Handshake.{AllRandom, response_of, initiate_handshake-peer}

abbrev local : AddrPort
local = record { addr = replicate 15 0 ++ (1 ∷ []); port = 443 }

-- A parser that reads this endpoint only, and a resolver that gives two addresses for every name.
abbrev net : Net
net = record {
  parse_prefix = λ s. none;
  parse_addr_port = λ s. if text_eq s (codes "[::1]:443") then some local else none;
  parse_addr = λ s. none;
  lookup_ip = λ s. some ((10 ∷ 0 ∷ 0 ∷ 1 ∷ []) ∷ replicate 16 2 ∷ []);
}

abbrev opts : ScanOptions
opts = record {
  endpoints = [];
  scanner_ports = [];
  v4 = true;
  v6 = false;
  max_rtt = pos 0;
  scan_timeout = pos 0;
  private_key = [];
  public_key = [];
}

local-IsLiteral : IsLiteral net (codes "::1") local
unfolding join_host_port itoa is_space text_eq
local-IsLiteral = record {
  part = record { no_open = refl; no_close = refl };
  plain = (
    refl,
    (λ e. omega (arith, e)),
    (refl, (λ e. omega (arith, e)), (refl, (λ e. omega (arith, e)), tt)),
  );
  small = omega arith;
  parsed = refl;
  no_prefix = refl;
}

scanner_of-printed_example :
    (o : ScannerOptions) × (scanner_of net (record opts {
      endpoints = join_commas (join_host_port (codes "::1") (itoa 443) ∷ []);
      scanner_ports = join_commas (map itoa (2408 ∷ 500 ∷ []));
    })
      ≡ some o)
    × Scans true false (local ∷ []) (2408 ∷ 500 ∷ []) o
scanner_of-printed_example =
    scanner_of-printed net opts (codes "::1") local [] 2408 (500 ∷ []) (local-IsLiteral, tt)
      (omega arith, (omega arith, tt))

add_endpoint-Given_example :
    (eps : List AddrPort) × (add_endpoint net (codes "a.b:80, c") initial_options
      ≡ record initial_options { custom_endpoints = [] ++ eps })
    × AllGiven net initial_options eps
add_endpoint-Given_example = add_endpoint-Given net (codes "a.b:80, c") initial_options

-- Libraries that answer with texts of the right lengths.
abbrev crypto : Crypto Unit
crypto = record {
  decode = λ s. some s;
  public_key = λ k. k;
  x25519_base = λ k. some k;
  new_state = λ pair peer psk ephemeral. some tt;
  write_message = λ s payload. some (replicate 108 7, tt);
  read_message = λ s message. some [];
  sum256 = λ s. s;
  sum128 = λ key s. some (replicate 16 9);
}

abbrev link : Link
link = record {
  ephemeral = λ i. i;
  seconds = 5;
  nanoseconds = 6;
  dialed = true;
  count = 3;
  size = λ i. i;
  noise = λ i j. i;
  cancelled = λ i. false;
  written = λ i. true;
  response = some (response_of 1 28 (replicate 48 5) (replicate 32 0));
  rtt = 70;
}

prepared :
    prepare crypto link (codes "k") (codes "p") []
    ≡ some (initiation (replicate 108 7) (replicate 16 9), tt)
unfolding prepare static_keypair ephemeral_keypair
prepared = refl

initiate_handshake-peer_example :
    (packets : List (List ℕ)) × (initiate_handshake crypto link (codes "k") (codes "p") []
      ≡ record {
        sent = packets ++ (initiation (replicate 108 7) (replicate 16 9) ∷ []);
        rtt = if 28 == 28 then accepted (some []) 70 else none;
      })
    × (8 ≤ length packets)
    × (length packets < 15)
    × AllRandom packets
    × (length (initiation (replicate 108 7) (replicate 16 9)) ≡ 148)
    × (handshake_initiation (initiation (replicate 108 7) (replicate 16 9)) ≡ true)
initiate_handshake-peer_example =
    initiate_handshake-peer crypto link tt (replicate 108 7) (replicate 16 9) (codes "k")
      (codes "p") [] 1 28 (replicate 48 5) (replicate 32 0)
      (record { dialed = refl; alive = λ i. refl; written = λ i. refl }) prepared refl (omega arith)
      refl (omega arith) refl refl
